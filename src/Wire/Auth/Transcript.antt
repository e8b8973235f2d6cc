-- ===== src/Wire/Auth/Transcript.antt =====
-- `Transcript::new` of crates/wire/src/auth.rs: what a signature binds.
