-- ===== src/Actor.antt =====
-- internal/actor: what an attacker is taken for.
pub mod Playbook
