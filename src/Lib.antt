-- ===== src/Lib.antt =====
-- liburx: a client of the real-time data exchange (RTDE) of a Universal Robots controller.
--
-- The program exchanges packages with the controller over TCP. A recipe lists the variables that one
-- data package carries, each bound to a place in the memory of the program that uses the library. The
-- client registers recipes, parses the packages of its output recipe into that memory, and packs the
-- memory into the packages of its input recipes.
--
--   Magic      include/urx/magic.h: package and data types, and the two tables of variables
--   Bytes, Double, Helper
--              byte order, doubles as their 64 bits, and the text helpers of include/urx/helper.hpp
--   Base       shared names, lists and tests over the native numbers, and `Run`
--   Memory     buffers as lists of bytes whose accesses are checked, and the memory of the using
--              program as a function from addresses to bytes
--   Header     include/urx/header.hpp and src/header.cpp: Package (the common header), Requests,
--              Control (packages that set up recipes and carry data) and Responses
--   Token      include/urx/rtde_recipe_token.hpp and src/rtde_recipe_token.cpp: one field of a recipe
--   Recipe     include/urx/rtde_recipe.hpp and src/rtde_recipe.cpp; its children have the layout of
--              fields in a package, what parse and store do, and what a response is accepted for
--   Con        include/urx/con.hpp and src/con.cpp: the connection
--   Handler    include/urx/rtde_handler.hpp and src/rtde_handler.cpp: the client, over the others; its
--              children have what each call does, and Session, Sending and Talking what stays true of
--              a client over any sequence of calls
--   Script     include/urx/urx_script.hpp, src/urx_script.cpp and src/urx_handler.cpp: script files
--   Robot      include/urx/robot.hpp and src/robot.cpp: Setup (the recipes), Receive (recv and state),
--              Command (update_w, calculate_q_ref, start and stop), Fields (where the members and the
--              fields stand) and Threads (the receiver next to its users, as steps of a
--              system, and the mailbox that they see)
--   Tools      the programs under tools/: GetRemote (get_remote.cpp), SendScript (send_script.cpp),
--              RobotSpeed (robot_speed.cpp), TcpPose (tcp_pose.cpp), JointSpeed (joint_speed.cpp) and
--              Roundtrip (measure_roundtrip.cpp)
--   Examples   the theorems at concrete inputs
--
-- A function keeps its name in the source and takes the state that it changes as an argument, and
-- returns it with its result. `Run` is the result of code that reads or writes buffers: `fault` is an
-- access outside a block or through a null pointer, undefined behaviour in C++, and `ret` is a return.
-- A pointer that may be null is an `Option`. Numbers are natural numbers with the wrap-around of their
-- width written out. The host is little-endian. Doubles are their bits. What the system calls return
-- (socket, inet_pton, connect, send, recvfrom), whether an allocation succeeds, and whether the log
-- file can be opened (`has_log`) are arguments; `recvfrom` gives at most the bytes it was asked for. Clocks are
-- arguments. Messages that are printed are left out.
--
-- The only loop on fuel is the scan of a response, `scan_items`: each round takes at least one byte of
-- what is left to scan, so the fuel of one more than that is enough.
--
-- The members of a robot that recipes point to are stretches of that memory. Their addresses are a
-- record, `Members`, and the theorems assume the order that C++ gives them, `InOrder`. What a
-- thread does under the lock is one function, and one step in Threads; a wait on a condition
-- variable is the step that follows it. A step of the receiver takes whatever a read from the
-- connection gives. TCP does not keep frames apart, and the client takes each read for one frame:
-- the theorems on the threads assume, as a hypothesis on the steps, that every read gives an error
-- or exactly one whole frame. `wait_for_q_ref` is a recursion on its 500 attempts. Subtraction,
-- multiplication and division of doubles are arguments in Helper.
--
-- The tools take what each round of a loop meets, such as the frames that come in and the results of
-- `send`, as a list or as a function of the number of the round. A loop that runs until a position is
-- reached goes over that list, and gives what is left of it. The attempts of a trip are a recursion on
-- `err_ctr`, from 100. Tools.Doubles has the arithmetic on doubles as operations on their bits, which
-- are arguments.
--
-- Each of the longer tools has its start and end in Main: the options, the recipes, and the script for
-- the controller. The theorems on the loops of joint_speed and measure_roundtrip take a client that has
-- the recipes registered, and those on robot_speed a robot that is set up.
--
-- Not modelled: the tests, and src/urx_con.cpp, which no build file names. Of the tools: what they
-- print, the format of the files they write, and the sleeps. Of src/robot.cpp the statistics that the
-- flag ts_log_debug prints (nothing sets it), the delays of a robot under test and the scheduling call
-- of start_rr are left out.
pub mod Base
pub mod Bytes
pub mod Memory
pub mod Double
pub mod Magic
pub mod Header
pub mod Helper
pub mod Token
pub mod Recipe
pub mod Con
pub mod Handler
pub mod Tools
pub mod Examples
pub mod Script
pub mod Robot
