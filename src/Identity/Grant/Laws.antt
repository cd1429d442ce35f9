-- ===== src/Identity/Grant/Laws.antt =====
-- `intersect` is the greatest grant within both, among the grants whose tools are executable.
use clew.Prelude.{◌≡◌, ◌↔◌, true, arith}
use clew.Identity.Grant.{PermissionGrant, intersect}

-- Every permission of `g` is one of `h`.
pub record Within (g h : PermissionGrant) : Type 0 where
  pub execute : g.member.execute ≡ true → h.member.execute ≡ true
  pub connector : g.member.connector ≡ true → h.member.connector ≡ true
  pub read : g.read ≡ true → h.read ≡ true
  pub write : g.write ≡ true → h.write ≡ true
  pub shell : g.shell ≡ true → h.shell ≡ true
  pub tcp_egress : g.tcp_egress ≡ true → h.tcp_egress ≡ true

-- A grant of tools is to a member that may execute them.
pub record IsExecutable (g : PermissionGrant) : Type 0 where
  pub read : g.read ≡ true → g.member.execute ≡ true
  pub write : g.write ≡ true → g.member.execute ≡ true
  pub shell : g.shell ≡ true → g.member.execute ≡ true
  pub tcp_egress : g.tcp_egress ≡ true → g.member.execute ≡ true

pub intersect-Within : (g h : PermissionGrant) → Within (intersect g h) g × Within (intersect g h) h
unfolding intersect
intersect-Within g h = (ground arith, ground arith)

pub intersect-IsExecutable : (g h : PermissionGrant) → IsExecutable (intersect g h)
unfolding intersect
intersect-IsExecutable g h = ground arith

pub Within-trans : {f g h : PermissionGrant} → Within f g → Within g h → Within f h
Within-trans p q = record {
  execute = λ e. q.execute (p.execute e);
  connector = λ e. q.connector (p.connector e);
  read = λ e. q.read (p.read e);
  write = λ e. q.write (p.write e);
  shell = λ e. q.shell (p.shell e);
  tcp_egress = λ e. q.tcp_egress (p.tcp_egress e);
}

greatest :
    (f g h : PermissionGrant) → IsExecutable f → Within f g → Within f h → Within f (intersect g h)
unfolding intersect
greatest f g h x p q = ground arith

-- `intersect g h` gives no tool to a member that may not execute, and is the greatest such grant
-- within both: an executable grant is within it just where it is within `g` and within `h`.
pub intersect_greatest :
    (f g h : PermissionGrant)
    → IsExecutable f
    → IsExecutable (intersect g h) × (Within f (intersect g h) ↔ (Within f g × Within f h))
intersect_greatest f g h x = (
  intersect-IsExecutable g h,
  (
    λ w. (Within-trans w (intersect-Within g h).0, Within-trans w (intersect-Within g h).1),
    λ both. greatest f g h x both.0 both.1,
  ),
)
