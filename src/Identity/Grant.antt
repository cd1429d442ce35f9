-- ===== src/Identity/Grant.antt =====
-- crates/clew-identity/src/grant.rs: permission grants and their intersection.
pub mod Laws
use clew.Prelude.{Bool, true, false, ◌&&◌}
use clew.Core.Device.{MemberCapabilities, execute_only, connector_only, execute_and_connector}

pub record PermissionGrant : Type 0 where
  pub member : MemberCapabilities
  pub read : Bool
  pub write : Bool
  pub shell : Bool
  pub tcp_egress : Bool

abbrev pub execute_read : PermissionGrant
execute_read = record {
  member = execute_only;
  read = true;
  write = false;
  shell = false;
  tcp_egress = false;
}

abbrev pub full_grant : PermissionGrant
full_grant = record {
  member = execute_and_connector;
  read = true;
  write = true;
  shell = true;
  tcp_egress = true;
}

abbrev pub connector_only_grant : PermissionGrant
connector_only_grant = record {
  member = connector_only;
  read = false;
  write = false;
  shell = false;
  tcp_egress = false;
}

-- PermissionGrant::intersect
unfoldable pub intersect : PermissionGrant → PermissionGrant → PermissionGrant
intersect g ceiling =
    let member : MemberCapabilities = record {
      execute = g.member.execute && ceiling.member.execute;
      connector = g.member.connector && ceiling.member.connector;
    } in
    record {
      member = member;
      read = member.execute && g.read && ceiling.read;
      write = member.execute && g.write && ceiling.write;
      shell = member.execute && g.shell && ceiling.shell;
      tcp_egress = member.execute && g.tcp_egress && ceiling.tcp_egress;
    }
