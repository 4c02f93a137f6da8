-- ===== src/Security/Permissions.antt =====
-- What `validate_permission` of firmware/src/security.c grants.
use rutgers_2026_e_ctf_desig.Prelude.{
  ℕ, ◌≡◌, ◌≢◌, ◌↔◌, refl, sym, ap, ◌∙◌, true, true≢false, false≢true, List, [], ◌∷◌, ◌++◌, ◌==◌,
  ==_iff, Bool-cases, inl, inr,
}
use rutgers_2026_e_ctf_desig.Security.{
  GroupPermission, Secrets, Permission, granted, permission_scan, validate_permission,
}

-- No entry of the list is for the group.
pub IsFree : ℕ → List GroupPermission → Type 0
IsFree g [] = Unit {0}
IsFree g (e ∷ es) = (e.group_id ≢ g) × IsFree g es

-- The first entry for a group, and that it grants the permission.
pub record IsGranted (es : List GroupPermission) (g : ℕ) (p : Permission) : Type 0 where
  pub before : List GroupPermission
  pub entry : GroupPermission
  pub behind : List GroupPermission
  pub split : es ≡ before ++ (entry ∷ behind)
  pub first : IsFree g before
  pub for_group : entry.group_id ≡ g
  pub grants : granted p entry ≡ true

scan-IsGranted :
    (es : List GroupPermission) (g : ℕ) (p : Permission)
    → permission_scan es g p ≡ true
    → IsGranted es g p
unfolding permission_scan IsFree
scan-IsGranted [] g p h = absurd (false≢true h)
scan-IsGranted (e ∷ es) g p h = elim (Bool-cases (e.group_id == g)) [
  | inl same ↦
      let found : permission_scan (e ∷ es) g p ≡ granted p e = simp same in
      record {
        before = [];
        entry = e;
        behind = es;
        split = refl;
        first = tt;
        for_group = (==_iff e.group_id g).0 same;
        grants = sym found ∙ h;
      }
  | inr other ↦
      let skipped : permission_scan (e ∷ es) g p ≡ permission_scan es g p = simp other in
      let r = scan-IsGranted es g p (sym skipped ∙ h) in
      record {
        before = e ∷ r.before;
        entry = r.entry;
        behind = r.behind;
        split = ap (λ (l : List GroupPermission). e ∷ l) r.split;
        first = (λ q. true≢false (sym ((==_iff e.group_id g).1 q) ∙ other), r.first);
        for_group = r.for_group;
        grants = r.grants;
      }
]

scan-first :
    (before behind : List GroupPermission) (e : GroupPermission) (g : ℕ) (p : Permission)
    → IsFree g before
    → e.group_id ≡ g
    → permission_scan (before ++ (e ∷ behind)) g p ≡ granted p e
unfolding permission_scan IsFree
scan-first [] behind e g p f q = let same = (==_iff e.group_id g).1 q in simp same
scan-first (d ∷ ds) behind e g p f q = elim (Bool-cases (d.group_id == g)) [
  | inl same ↦ absurd (f.0 ((==_iff d.group_id g).0 same))
  | inr other ↦ simp other (scan-first ds behind e g p f.1 q)
]

-- `validate_permission` returns true exactly when the provisioned table has an entry for the
-- group whose first one grants the permission.
pub validate_permission_iff :
    (secrets : Secrets) (g : ℕ) (p : Permission)
    → (validate_permission secrets g p ≡ true) ↔ IsGranted secrets.permissions g p
unfolding validate_permission
validate_permission_iff secrets g p = (
  scan-IsGranted secrets.permissions g p,
  λ r.
      ap (λ (es : List GroupPermission). permission_scan es g p) r.split
      ∙ scan-first r.before r.behind r.entry g p r.first r.for_group
      ∙ r.grants,
)
