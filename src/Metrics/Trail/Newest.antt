-- ===== src/Metrics/Trail/Newest.antt =====
-- What `TenantAudit` and the timeline give back is the end of what was written.
use cmek.Base.{
  set_at, ℕ, ◌<◌, ◌≡◌, refl, sym, ap, subst, ◌∙◌, arith, min, List, [], ◌∷◌, take, same, codes,
  Option, none, some, Bool, true, false, ltb, lt→ltb, ◌==◌, if◌then◌else◌,
}
use native.Mathlib.Decide.{ℕ_discrete}
use cmek.Metrics.Recent.{Recent, note, recorded, newest-take}
use cmek.Metrics.Trail.{
  Setup, AuditEntry, Trail, no_entry, new_trail, count_call, tell_change, audit_known, audit_entry,
  tenant_audit, post,
}

-- The registry after all entries of a log, the latest of which comes first.
unfoldable pub audited : Setup → List AuditEntry → Trail
unfolding new_trail audit_entry
audited u [] = new_trail u
audited u (e ∷ log) = audit_entry u e (audited u log)

abbrev is_about : ℕ → Option ℕ → Bool
is_about i none = false
is_about i (some j) = j == i

-- The entries of a log about one tenant.
abbrev pub about : ℕ → List AuditEntry → List AuditEntry
about i [] = []
about i (e ∷ log) = if is_about i e.idx then e ∷ about i log else about i log

count_call-audits :
    (u : Setup) (i : ℕ) (e : AuditEntry) (t : Trail) → (count_call u i e t).audits ≡ t.audits
unfolding count_call
count_call-audits u i e t = ground arith

tell_change-audits :
    (u : Setup) (i : ℕ) (e : AuditEntry) (t : Trail) → (tell_change u i e t).audits ≡ t.audits
unfolding tell_change post
tell_change-audits u i e t = ground arith

either-audits :
    (b : Bool) (x y : Trail) (f : ℕ → Recent AuditEntry)
    → x.audits ≡ f
    → y.audits ≡ f
    → (if b then x else y).audits ≡ f
either-audits true x y f p q = p
either-audits false x y f p q = q

audit_known-audits :
    (u : Setup) (j : ℕ) (e : AuditEntry) (t : Trail) (i : ℕ)
    → (audit_known u j e t).audits i ≡ (if i == j then note e (t.audits j) else t.audits i)
unfolding audit_known
audit_known-audits u j e t i =
    let h = count_call-audits u j e t in
    ap (λ f. set_at j (note e (f j)) f i)
      (either-audits (same e.op (codes "state")) (tell_change u j e (count_call u j e t))
        (count_call u j e t) t.audits (tell_change-audits u j e (count_call u j e t) ∙ h) h)

known-audits :
    (u : Setup) (j : ℕ) (e : AuditEntry) (t : Trail) (i : ℕ)
    → i < u.tenants
    → (if ltb j u.tenants then audit_known u j e t else t).audits i
      ≡ (if j == i then note e (t.audits i) else t.audits i)
known-audits u j e t i l = elim (ℕ_discrete j i) [
  | yes q ↦
      subst
        (λ (k : ℕ).
          (if ltb k u.tenants then audit_known u k e t else t).audits i
          ≡ (if k == i then note e (t.audits i) else t.audits i))
        (sym q) (rw (lt→ltb i u.tenants l) (audit_known-audits u i e t i))
  | no q ↦
      let apart : (i == j) ≡ false = ground arith in
      let apart' : (j == i) ≡ false = ground arith in
      rw apart' (either (ltb j u.tenants) (audit_known-audits u j e t i ∙ rw apart refl))
]
  where
    either :
        (b : Bool)
        → (audit_known u j e t).audits i ≡ t.audits i
        → (if b then audit_known u j e t else t).audits i ≡ t.audits i
    either true q = q
    either false q = refl

audit_entry-audits :
    (u : Setup) (e : AuditEntry) (t : Trail) (i : ℕ)
    → i < u.tenants
    → (audit_entry u e t).audits i ≡ (if is_about i e.idx then note e (t.audits i) else t.audits i)
unfolding audit_entry
audit_entry-audits u e t i l = split e.idx refl
  where
    split :
        (o : Option ℕ)
        → e.idx ≡ o
        → (audit_entry u e t).audits i
          ≡ (if is_about i e.idx then note e (t.audits i) else t.audits i)
    split none q = rw q refl
    split (some j) q = rw q (known-audits u j (record e { idx = some j }) t i l)

audited-audits :
    (u : Setup) (log : List AuditEntry) (i : ℕ)
    → i < u.tenants
    → (audited u log).audits i ≡ recorded no_entry u.audit_ring (about i log)
unfolding audited new_trail recorded
audited-audits u [] i l = refl
audited-audits u (e ∷ log) i l =
    rw (audit_entry-audits u e (audited u log) i l, audited-audits u log i l)
      (choose (is_about i e.idx))
  where
    choose :
        (b : Bool)
        → (if b
            then note e (recorded no_entry u.audit_ring (about i log))
            else recorded no_entry u.audit_ring (about i log))
          ≡ recorded no_entry u.audit_ring (if b then e ∷ about i log else about i log)
    choose true = refl
    choose false = refl

-- `TenantAudit` gives the latest entries about the tenant, as many as asked for but no more than
-- the ring has slots, the newest first, whatever was audited and in whatever order.
pub tenant_audit-take :
    (u : Setup) (log : List AuditEntry) (i n : ℕ)
    → i < u.tenants
    → 0 < u.audit_ring
    → tenant_audit u (some i) n (audited u log) ≡ take (min n u.audit_ring) (about i log)
unfolding tenant_audit
tenant_audit-take u log i n l p =
    rw (lt→ltb i u.tenants l, audited-audits u log i l)
      (newest-take no_entry u.audit_ring (about i log) n p)
