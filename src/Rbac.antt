-- ===== src/Rbac.antt =====
-- Organizations, teams, roles, measurement permissions and token memberships.
pub mod State
pub mod Cascade
pub mod Staging
pub mod Organizations
pub mod Teams
pub mod Roles
pub mod Members
pub mod Tables
pub mod MemberLoops
pub mod Below
pub mod Teardown
pub mod Staged
pub mod Rows
pub mod MemberRows
pub mod OrganizationKeeps
pub mod TeamKeeps
pub mod RoleKeeps
pub mod MemberKeeps
pub mod Unused
pub mod UnusedTeardown
pub mod Refused
pub mod UnusedUpdates
pub mod UnusedCascade
pub mod RefusedChanges
