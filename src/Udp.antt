-- ===== src/Udp.antt =====
-- The authenticated UDP link: auth/udp_auth.py, auth/udp_session.py and transport/udp_listener.py.
pub mod Auth
pub mod Session
pub mod Listener
