-- ===== src/Header.antt =====
-- include/urx/header.hpp and src/header.cpp: the packages exchanged with the controller.
pub mod Package
pub mod Requests
pub mod Control
pub mod Responses
