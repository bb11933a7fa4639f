-- ===== src/Redhat.antt =====
-- providers/redhat: the checkers of an entry of Red Hat.
pub mod Check
pub mod Upgrade
