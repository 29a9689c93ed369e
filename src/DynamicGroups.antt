-- ===== src/DynamicGroups.antt =====
-- services/admin-api/src/services/dynamic-groups.ts: rules of dynamic groups as SQL text, and the
-- memberships that follow from them.
pub mod Rules
pub mod Lexer
pub mod Literals
pub mod Conditions
pub mod Injection
pub mod Membership
pub mod Convergence
pub mod Placement
