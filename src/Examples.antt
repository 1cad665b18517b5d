-- ===== src/Examples.antt =====
-- The theorems at concrete packages, fields, recipes and clients.
mod Wire
mod Recipes
mod Clients
mod Scripts
mod Robots
mod Vectors
mod Threads
mod Stops
mod Setups
mod Sessions
mod Tools
mod Joints
mod Steering
mod Trips
