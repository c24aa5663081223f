-- ===== src/Netlink/Freshness.antt =====
-- `Freshness` of src/netlink.rs: when stale exports are withdrawn. A time is a number of
-- nanoseconds, and the watch channel is its latest value.
pub mod Bounded
use ubgp.Base.{
  ℕ, ◌-◌, Bool, true, false, not, ◌&&◌, Option, none, some, List, [], ◌∷◌, leb, Eq, same,
  if◌then◌else◌,
}

-- The channel's value with the two fields. `Exports` is whatever is published.
pub record Freshness (Exports : Type 0) : Type 0 where
  pub dirty_since : Option ℕ
  pub withdrawn : Bool
  pub published : Exports

-- `get_or_insert`
abbrev pub get_or_insert : Option ℕ → ℕ → Option ℕ
get_or_insert none now = some now
get_or_insert (some start) now = some start

abbrev pub overdue : Option ℕ → ℕ → ℕ → Bool
overdue none now limit = false
overdue (some start) now limit = leb limit (now - start)

module _ {Exports : Type 0} where
  unfoldable pub invalidate : ℕ → Freshness Exports → Freshness Exports
  invalidate now s = record s { dirty_since = get_or_insert s.dirty_since now }

  -- `no_exports` is `Exports::new()`.
  unfoldable pub expire : Exports → ℕ → ℕ → Freshness Exports → Freshness Exports
  expire no_exports now limit s =
      if not s.withdrawn && overdue s.dirty_since now limit
      then record s { published = no_exports; withdrawn = true }
      else s

  unfoldable pub publish :
      ⦃eq : Eq Exports⦄ → ℕ → Bool → Exports → Freshness Exports → Freshness Exports
  publish now changed exports s = record {
    dirty_since = if changed then some now else none;
    withdrawn = false;
    published = if not (same s.published exports) then exports else s.published;
  }

-- What the reconciler and its watchdog do to the shared state, under its lock.
pub data Change (Exports : Type 0) : Type 0 where
  invalidated expired : ℕ → Change Exports
  republished : ℕ → Bool → Exports → Change Exports

module _ {Exports : Type 0} ⦃eq : Eq Exports⦄ (no_exports : Exports) (limit : ℕ) where
  pub apply : Change Exports → Freshness Exports → Freshness Exports
  unfolding invalidate expire publish
  apply (invalidated now) s = invalidate now s
  apply (expired now) s = expire no_exports now limit s
  apply (republished now changed exports) s = publish now changed exports s

  pub apply_all : List (Change Exports) → Freshness Exports → Freshness Exports
  apply_all [] s = s
  apply_all (c ∷ cs) s = apply_all cs (apply c s)
