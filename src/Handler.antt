-- ===== src/Handler.antt =====
-- include/urx/rtde_handler.hpp and src/rtde_handler.cpp: the protocol client. It keeps pointers to
-- recipes that the program owns, so the state has a store of recipes next to the memory that their
-- fields point into.
pub mod Laws
pub mod Updates
pub mod Receive
pub mod Register
pub mod Session
pub mod Version
pub mod Sending
pub mod Talking
pub mod Emergency
use Prim.Native.String.{String, []}
use lib_urx.Base.{
  [], ℕ, Option, if◌then◌else◌, ℤ, Run, Bool, List, ◌==◌, ◌>>=◌, some, ltb, none, not, ret, true,
  false, ◌∷◌, take, is_negative, ◌&&◌, eq_ℤ, fault, ◌-◌, ◌++◌, length, is_positive, drop, ◌+◌, pos,
  negsuc,
}
use lib_urx.Bytes.{Bytes}
use lib_urx.Memory.{Ram, load, write, c_string}
use lib_urx.Magic.Types.{codes, text_message}
use lib_urx.Header.Package.{sizeof_data_package, rtde_hdr_get, hdr_size}
use lib_urx.Header.Requests.{
  rtde_mkreq_prot_version, rtde_mkreq_urctrl_version, rtde_mkreq_msg_out, rtde_control_package,
}
use lib_urx.Header.Responses.{
  UrVersion, rtde_parse_prot_version, rtde_parse_urctrl_resp, rtde_parse_data_package,
  rtde_control_package_sp_resp_validate,
}
use lib_urx.Recipe.{Recipe, get_msg, register_response, parse, store}
use lib_urx.Con.{Con, Incoming, do_send, do_recv, do_send_recv}

-- `out` and the second parts of `recipes_in` are pointers into `recipes`. The pairs are in the order
-- in which the unordered map lists them.
pub record Client : Type 0 where
  pub con : Con
  pub buffer : Bytes
  pub out : Option ℕ
  pub recipes_in : List (ℤ × ℕ)
  pub recipes : ℕ → Recipe
  pub ram : Ram

-- `*p = r`.
abbrev pub put_recipe : Client → ℕ → Recipe → Client
put_recipe h p r = record h { recipes = λ q. if q == p then r else h.recipes q }

-- What the system calls of one exchange return: the result of `send`, and what arrives.
pub record Exchange : Type 0 where
  pub written : ℤ
  pub input : Incoming

-- The buffer that a call returned.
abbrev kept_or : Bytes → Option Bytes → Bytes
kept_or old none = old
kept_or old (some b) = b

-- The buffer with what a call made of its payload.
abbrev after_payload : Bytes → Option Bytes → Bytes
after_payload buffer none = buffer
after_payload buffer (some b) = take sizeof_data_package buffer ++ b

-- `con_->do_send_recv(hdr, ntohs(hdr->size), buffer_, rsz)`.
unfoldable pub exchange : Client → Bytes → ℕ → Exchange → Run (Client × ℤ)
exchange h frame rsz net = hdr_size frame >>= λ sz.
    do_send_recv h.con frame sz (some h.buffer) rsz net.written net.input >>= λ res.
    let (c, b, n) = res in ret (record h { con = c; buffer = kept_or h.buffer b }, n)

-- A request whose answer is the buffer; `read` says what becomes of it.
abbrev ask {ℓ} :
    {A : Type ℓ} → Client → Bytes → ℕ → Exchange → A → (Bytes → Run A) → Run (Client × A)
ask h frame rsz net refused read = exchange h frame rsz net >>= λ res.
    let (h', n) = res in
    let answer = read h'.buffer >>= λ a. ret (h', a) in
    if is_negative n then ret (h', refused) else answer

-- The first argument is what stands on the stack where `prot` is.
unfoldable pub set_version : Bytes → Client → Exchange → Run (Client × Bool)
set_version stack h net = rtde_mkreq_prot_version (some stack) >>= λ made. elim made [
  | none ↦ ret (h, false)
  | some prot ↦ ask h prot 1024 net false λ b. rtde_parse_prot_version (some b)
]

abbrev is_supported : UrVersion → Bool
is_supported v = ltb 0 v.major && ltb v.major 7

abbrev read_version : Bytes → Run (Option UrVersion × Bool)
read_version b = rtde_parse_urctrl_resp (some b) true >>= λ v. elim v [
  | none ↦ ret (none, false)
  | some urver ↦ ret (some urver, is_supported urver)
]

-- The version is the one that `urver` is set to, if it is.
unfoldable pub get_ur_version : Bytes → Client → Exchange → Run (Client × Option UrVersion × Bool)
get_ur_version stack h net = rtde_mkreq_urctrl_version (some stack) >>= λ made. elim made [
  | none ↦ ret (h, none, false)
  | some header ↦
      ask h header 1024 net (none, false) read_version >>= λ res. ret (res.0, res.1.0, res.1.1)
]

-- The first argument says whether the allocation succeeds; the message is a C++ string.
unfoldable pub send_emerg_msg : Bool → Client → Bytes → ℤ → Run (Client × Bool)
send_emerg_msg has_msg h msg written = elim (rtde_hdr_get has_msg text_message) [
  | none ↦ ret (h, false)
  | some rtde ↦ do
    text ← c_string (msg ++ (0 ∷ []))
    let src = codes "the World"
    made ←
        rtde_mkreq_msg_out (some rtde) (some (msg ++ (0 ∷ []))) (length text + 1)
          (some (src ++ (0 ∷ []))) (length src + 1)
    elim made [
      | none ↦ ret (h, false)
      | some full ↦ hdr_size full >>= λ sz.
          do_send h.con full sz written >>= λ res. ret (record h { con = res.0 }, is_positive res.1)
    ]
]

-- `recipes_in.insert({id, r})` keeps an entry that has the id.
unfoldable pub insert : ℤ → ℕ → List (ℤ × ℕ) → List (ℤ × ℕ)
insert id p [] = (id, p) ∷ []
insert id p (e ∷ es) = let rest = insert id p es in if eq_ℤ e.0 id then e ∷ es else e ∷ rest

-- The loop of `send`: the first recipe that has the id.
unfoldable pub find_recipe : (ℕ → Recipe) → List (ℤ × ℕ) → ℤ → Option ℕ
find_recipe recipes [] id = none
find_recipe recipes (e ∷ es) id =
    let rest = find_recipe recipes es id in
    if eq_ℤ (recipes e.1).recipe_id id then some e.1 else rest

-- `dp->hdr` of a null pointer faults. The result of `store` is not looked at.
unfoldable pub send : Client → ℤ → ℤ → Run (Client × Bool)
send h recipe_id written = elim (find_recipe h.recipes h.recipes_in recipe_id) [
  | none ↦ ret (h, false)
  | some p ↦ store (h.recipes p) h.ram (h.recipes p).dp >>= λ stored. elim stored.0 [
    | none ↦ fault
    | some dp ↦ hdr_size dp >>= λ sz. do_send h.con dp sz written >>= λ res. ret (
      record (put_recipe h p (record (h.recipes p) { dp = some dp })) { con = res.0 },
      is_positive res.1,
    )
  ]
]

-- The index `sendcode < 2048 ? sendcode : 2047`.
abbrev pub end_index : ℤ → ℕ
end_index (pos n) = if ltb n 2048 then n else 2047
end_index (negsuc n) = 0

-- Behind the answer to the setup of the recipe at p.
unfoldable pub registered : Client → ℕ → Bool → ℤ → Run (Client × Bool)
registered h p done written =
    let r = h.recipes p in
    let h' = record h { recipes_in = insert r.recipe_id p h.recipes_in } in
    let cleared = send h' r.recipe_id written in
    if not done
    then ret (h, false)
    else if r.dir_out
    then ret (record h { out = some p }, true)
    else cleared

-- The last argument is the result of the `send` that an input recipe makes.
unfoldable pub register_recipe : Client → Option ℕ → Exchange → ℤ → Run (Client × Bool)
register_recipe h none net written = ret (h, false)
register_recipe h (some p) net written = get_msg (h.recipes p) >>= λ asked.
    let (r, msg) = asked in
    let h1 = put_recipe h p r in
    elim msg [
      | none ↦ ret (h1, false)
      | some hdr ↦ exchange h1 hdr 2048 net >>= λ res.
          let (h2, n) = res in
          let answer =
            (write h2.buffer (end_index n) (0 ∷ []) >>= λ b.
            register_response r (some b) >>= λ response.
            registered (put_recipe (record h2 { buffer = b }) p response.0) p response.1 written) in
          if is_negative n then ret (h2, false) else answer
    ]

-- `start` and `stop`; both validate the answer as one to a start.
abbrev pub sp_answer : Bytes → Run Bool
sp_answer b = do
  valid ← rtde_control_package_sp_resp_validate (some b) true
  accepted ← load 1 b 3
  ret (if not valid then false else not (accepted == 0))

unfoldable pub start : Bytes → Client → Exchange → Run (Client × Bool)
start stack h net = rtde_control_package stack true >>= λ cp. ask h cp 4 net false sp_answer

unfoldable pub stop : Bytes → Client → Exchange → Run (Client × Bool)
stop stack h net = rtde_control_package stack false >>= λ cp. ask h cp 4 net false sp_answer

-- `out->parse(rtde_data_package_get_payload(data), rx_ts)`, on the receive buffer.
abbrev pub parse_payload : Client → ℕ → ℕ → Run (Client × Bool)
parse_payload h p rx_ts =
    parse (h.recipes p) h.ram (some (drop sizeof_data_package h.buffer)) rx_ts >>= λ res.
    let (m, b, done) = res in ret (record h { ram = m; buffer = after_payload h.buffer b }, done)

-- The package is at the start of the buffer. Without an output recipe the null pointer faults.
unfoldable pub parse_incoming_data : Client → ℕ → Run (Client × Bool)
parse_incoming_data h rx_ts = do
  valid ← rtde_parse_data_package (some h.buffer)
  rid ← load 1 h.buffer 3
  size ← hdr_size h.buffer
  let datasize = size - sizeof_data_package
  let parsed : Run (Client × Bool) = elim h.out [
    | none ↦ fault
    | some p ↦
        let run = parse_payload h p rx_ts in
        if not (eq_ℤ (h.recipes p).recipe_id (pos rid))
        then ret (h, false)
        else if not ((h.recipes p).bytes == datasize)
        then ret (h, false)
        else run
  ]
  if not valid then ret (h, false) else parsed

-- `ts` is the time at which `do_recv` returns.
unfoldable pub recv : Client → Incoming → ℕ → Run (Client × Bool)
recv h input ts = do_recv (some h.buffer) 2048 input >>= λ res.
    let (b, rcode) = res in
    let h' = record h { buffer = kept_or h.buffer b } in
    let parsed = parse_incoming_data h' ts in if is_negative rcode then ret (h', false) else parsed
