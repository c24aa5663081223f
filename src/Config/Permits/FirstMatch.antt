-- ===== src/Config/Permits/FirstMatch.antt =====
-- The first matching rule decides, and no match denies.
use ubgp.Base.{
  true, false, Option, none, some, List, [], ◌∷◌, ◌++◌, ◌≡◌, ◌↔◌, refl, All, Bool-cases, inl, inr,
  arith, ap, ℕ, ◌≤◌, Bool, leb, leb→le, le→leb, unwrap_or, &&_parts,
}
use ubgp.Net.IpNet.{IpNet}
use ubgp.Config.{Action, permit, deny, Rule, Acl}
use ubgp.Config.Permits.{is_permit, rule_matches, find_rule, permitted, permits}

is_permit_inv : (a : Action) → is_permit a ≡ true → a ≡ permit
is_permit_inv permit h = refl
is_permit_inv deny h = cc

-- At least the least length of a rule, which is the rule's own length when none is given.
abbrev pub AtLeast : Option ℕ → ℕ → ℕ → Type 0
AtLeast none own len = own ≤ len
AtLeast (some m) own len = m ≤ len

-- At most the greatest length of a rule, which is the rule's own length when none is given.
abbrev pub AtMost : Option ℕ → ℕ → ℕ → Type 0
AtMost none own len = len ≤ own
AtMost (some m) own len = len ≤ m

AtLeast-leb : (m : Option ℕ) (own len : ℕ) → (leb (unwrap_or m own) len ≡ true) ↔ AtLeast m own len
AtLeast-leb none own len = (leb→le own len, le→leb own len)
AtLeast-leb (some m) own len = (leb→le m len, le→leb m len)

AtMost-leb : (m : Option ℕ) (own len : ℕ) → (leb len (unwrap_or m own) ≡ true) ↔ AtMost m own len
AtMost-leb none own len = (leb→le len own, le→leb len own)
AtMost-leb (some m) own len = (leb→le len m, le→leb len m)

not_both : {b : Bool} → b ≡ false → ¬ (b ≡ true)
not_both e t = cc

module _ {Net : Type 0} ⦃ops : IpNet Net⦄ where
  open ops use {prefix_len, contains_net}

  -- The rule's prefix contains `prefix`, whose length is within the rule's bounds.
  abbrev pub Matches : Net → Rule Net → Type 0
  Matches prefix r =
      (contains_net r.prefix prefix ≡ true)
      × AtLeast r.min_length (prefix_len r.prefix) (prefix_len prefix)
      × AtMost r.max_length (prefix_len r.prefix) (prefix_len prefix)

  rule_matches-Matches :
      (prefix : Net) (r : Rule Net) → (rule_matches prefix r ≡ true) ↔ Matches prefix r
  unfolding rule_matches
  rule_matches-Matches prefix r =
      let low = AtLeast-leb r.min_length (prefix_len r.prefix) (prefix_len prefix) in
      let high = AtMost-leb r.max_length (prefix_len r.prefix) (prefix_len prefix) in
      (
        λ h.
            let (both, h') = &&_parts _ _ h in
            let (inside, l) = &&_parts _ _ both in (inside, low.0 l, high.0 h'),
        λ (inside, l, h). rw (inside, low.1 l, high.1 h) refl,
      )

  skipped_lem :
      (prefix : Net) (r : Rule Net) → (rule_matches prefix r ≡ false) ↔ (¬ (Matches prefix r))
  skipped_lem prefix r =
      let iff = rule_matches-Matches prefix r in
      (
        λ e m. not_both e (iff.1 m),
        λ never. elim (Bool-cases (rule_matches prefix r)) [
          | inl m ↦ absurd (never (iff.0 m))
          | inr e ↦ e
        ],
      )

  -- `r` is the first rule of `rules` that matches `prefix`.
  pub record IsFirstMatch (prefix : Net) (rules : List (Rule Net)) (r : Rule Net) : Type 0 where
    pub before : List (Rule Net)
    pub after : List (Rule Net)
    pub splits : rules ≡ before ++ r ∷ after
    pub skipped : All (λ q. ¬ (Matches prefix q)) before
    pub matched : Matches prefix r

  find_rule_skips :
      (prefix : Net) (before after : List (Rule Net)) (r : Rule Net)
      → All (λ q. ¬ (Matches prefix q)) before
      → Matches prefix r
      → find_rule prefix (before ++ r ∷ after) ≡ some r
  unfolding find_rule
  find_rule_skips prefix [] after r s m = rw ((rule_matches-Matches prefix r).1 m) refl
  find_rule_skips prefix (q ∷ qs) after r s m =
      rw ((skipped_lem prefix q).1 s.0) (find_rule_skips prefix qs after r s.1 m)

  find_rule_first :
      (prefix : Net) (rules : List (Rule Net)) (r : Rule Net)
      → find_rule prefix rules ≡ some r
      → IsFirstMatch prefix rules r
  unfolding find_rule
  find_rule_first prefix [] r h = cc
  find_rule_first prefix (q ∷ qs) r h = elim (Bool-cases (rule_matches prefix q)) [
    | inl m ↦ record {
      before = [];
      after = qs;
      splits = ground (arith, m);
      skipped = tt;
      matched = (rule_matches-Matches prefix r).0 (ground (arith, m));
    }
    | inr m ↦
        let ih = find_rule_first prefix qs r (ground (arith, m)) in
        record {
          before = q ∷ ih.before;
          after = ih.after;
          splits = ap (λ t. q ∷ t) ih.splits;
          skipped = ((skipped_lem prefix q).0 m, ih.skipped);
          matched = ih.matched;
        }
  ]

  permitted_inv :
      (o : Option (Rule Net))
      → permitted o ≡ true
      → (r : Rule Net) × (o ≡ some r) × (r.action ≡ permit)
  permitted_inv none h = cc
  permitted_inv (some r) h = (r, refl, is_permit_inv r.action h)

  -- `permits` is true exactly when some rule with action permit matches the prefix and no rule
  -- before it in the list matches. A rule matches when its prefix contains the prefix and the
  -- prefix is at least `min_length` and at most `max_length` long, where each of them is the length
  -- of the rule's own prefix when it is not given.
  pub permits-FirstMatch :
      (acl : Acl Net) (prefix : Net)
      → (permits acl prefix ≡ true)
        ↔ ((r : Rule Net) × IsFirstMatch prefix acl.rules r × (r.action ≡ permit))
  unfolding permits
  permits-FirstMatch acl prefix = (
    λ h.
        let (r, found, ok) = permitted_inv _ h in (r, find_rule_first prefix acl.rules r found, ok),
    λ (r, m, ok). rw (m.splits, find_rule_skips prefix m.before m.after r m.skipped m.matched, ok),
  )
