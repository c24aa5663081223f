-- ===== src/Netlink/Filter/Permitted.antt =====
-- What a peer is offered: the prefixes of the snapshot that its ACL permits.
use ubgp.Base.{
  Bool, true, false, ◌||◌, ◌&&◌, Option, none, some, List, [], ◌∷◌, Str, str_eq, same, same_iff,
  contains, ok, unwrap_or, ◌≡◌, refl, sym, ap, ◌∙◌, All, Bool-cases, inl, inr, arith,
}
use ubgp.Base.Sets.{filter, insert, contains-filter, contains-insert}
use ubgp.Net.IpNet.{IpNet, eq_of_net}
use ubgp.Config.Validate.Exact.{IsValidTransport, IsValidFamilies}
use ubgp.Config.{Peer, Acl, Config, find_acl}
use ubgp.Config.Permits.{permits}
use ubgp.Netlink.Filter.{acl_names, find_exports, desired, exports_of, filter_exports}

or_left : (a b : Bool) → a ≡ true → (a || b) ≡ true
or_left a b h = rw h refl

or_right : (a b : Bool) → b ≡ true → (a || b) ≡ true
or_right true b h = refl
or_right false b h = h

in_rest : {a b : Bool} → a ≡ false → (a || b) ≡ true → b ≡ true
in_rest {a} {b} h e = ground arith

pub All-both :
    {A : Type 0} (P Q R : A → Type 0) (xs : List A)
    → ((a : A) → P a → Q a → R a)
    → All P xs
    → All Q xs
    → All R xs
All-both P Q R [] f h k = tt
All-both P Q R (x ∷ xs) f h k = (f x h.0 k.0, All-both P Q R xs f h.1 k.1)

grows :
    (name : Str) (names : List Str) (a : Str)
    → contains names a ≡ true
    → contains (insert name names) a ≡ true
grows name names a h = contains-insert name names a ∙ or_right (same name a) (contains names a) h

contains-acl_names : (ps : List Peer) → All (λ p. contains (acl_names ps) p.export_acl ≡ true) ps
unfolding acl_names
contains-acl_names [] = tt
contains-acl_names (p ∷ ps) =
    let others = contains-acl_names ps in
    (
      contains-insert p.export_acl (acl_names ps) p.export_acl
          ∙ or_left (same p.export_acl p.export_acl) _
              ((same_iff p.export_acl p.export_acl).1 refl),
      All-both _ _ _ ps (λ q h k. grows p.export_acl (acl_names ps) q.export_acl h) others others,
    )

-- The permitted prefixes of an ACL that was looked up.
abbrev filtered : {Net : Type 0} ⦃ops : IpNet Net⦄ → List Net → Option (Acl Net) → Option (List Net)
filtered prefixes none = none
filtered prefixes (some acl) = some (filter (permits acl) prefixes)

module _ {Net : Type 0} ⦃ops : IpNet Net⦄ (c : Config Net) (prefixes : List Net) where
  abbrev pub HasAcl : Str → Type 0
  HasAcl name = (acl : Acl Net) × (find_acl name c.acls ≡ some acl)

  -- The exports under this name are the permitted prefixes.
  abbrev Exported : List (Str × List Net) → Str → Type 0
  Exported exports name =
      (acl : Acl Net)
      → find_acl name c.acls ≡ some acl
      → find_exports name exports ≡ some (filter (permits acl) prefixes)

  exports_of_ok :
      (names : List Str)
      → All HasAcl names
      → (exports : List (Str × List Net)) × (exports_of c prefixes names ≡ ok exports)
        × ((name : Str) → contains names name ≡ true → Exported exports name)
  unfolding exports_of find_exports
  exports_of_ok [] h = ([], refl, λ name absent. cc)
  exports_of_ok (n ∷ names) (a, h) =
      let (acl, found) = a in
      let (exports, e, rest) = exports_of_ok names h in
      (
        (n, filter (permits acl) prefixes) ∷ exports,
        rw (found, e) refl,
        λ name here acl' found'. elim (Bool-cases (same n name)) [
          | inl same_name ↦ rw same_name (
              ap (filtered prefixes)
                (sym found ∙ ap (λ k. find_acl k c.acls) ((same_iff n name).0 same_name) ∙ found'))
          | inr other ↦ rw other (rest name (in_rest other here) acl' found')
        ],
      )

  acl_names-HasAcl :
      (ps : List Peer) → All (λ p. HasAcl p.export_acl) ps → All HasAcl (acl_names ps)
  unfolding acl_names
  acl_names-HasAcl [] h = tt
  acl_names-HasAcl (p ∷ ps) h = elim (Bool-cases (contains (acl_names ps) p.export_acl)) [
    | inl held ↦ rw held (acl_names-HasAcl ps h.1)
    | inr new ↦ rw new (h.0, acl_names-HasAcl ps h.1)
  ]

  -- The exports of a configuration whose peers all name an ACL hold, under the name of each
  -- peer's ACL, the prefixes of the snapshot that it permits.
  pub filter_exports-permits :
      All (λ p. HasAcl p.export_acl) c.peers
      → (exports : List (Str × List Net)) × (filter_exports c prefixes ≡ ok exports)
        × All
            (λ p.
              (acl : Acl Net) × (find_acl p.export_acl c.acls ≡ some acl)
              × ((x : Net)
                  → contains (desired exports p.export_acl) x
                    ≡ (contains prefixes x && permits acl x)))
            c.peers
  unfolding filter_exports desired
  filter_exports-permits h =
      let (exports, e, each) = exports_of_ok (acl_names c.peers) (acl_names-HasAcl c.peers h) in
      (
        exports,
        e,
        All-both _ _ _ c.peers
            (λ p (acl, found) named. (
              acl,
              found,
              λ x.
                  ap (λ o. contains (unwrap_or o []) x) (each p.export_acl named acl found)
                  ∙ contains-filter (permits acl) prefixes x,
            ))
            h (contains-acl_names c.peers),
      )

module _ {Net : Type 0} ⦃ops : IpNet Net⦄ where
  -- The peers of a valid configuration name ACLs that exist.
  pub named_acls :
      (c : Config Net) (ps : List Peer)
      → All (λ p. IsValidTransport c p × IsValidFamilies c p) ps
      → All (λ p. HasAcl c [] p.export_acl) ps
  named_acls c ps h = All-both _ _ _ ps (λ p v w. v.0.export) h h
