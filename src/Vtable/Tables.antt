-- ===== src/Vtable/Tables.antt =====
-- The copy of a table in hooking/src/vtable.cpp is the table with the replacements in place.
use keel_s.Common.{
  ℕ, zero, suc, ◌<◌, ◌==◌, false, List, [], ◌∷◌, length, get_or, set, replicate, length-replicate,
  if◌then◌else◌, ◌≡◌, ◌≢◌, refl, sym, ap, arith,
}
use keel_s.Vtable.{
  is_ok, compare_exchange, exchange_protected, Protection, SharedVtableHook, enable_shared,
  disable_shared, InstanceVtable, created,
}

-- The entries, overlaid by the replacements that are set.
abbrev pub overlay : List ℕ → List ℕ → List ℕ
overlay [] rs = []
overlay (e ∷ es) [] = e ∷ es
overlay (e ∷ es) (r ∷ rs) = (if r == 0 then e else r) ∷ overlay es rs

abbrev pub count : List ℕ → ℕ
count [] = 0
count (r ∷ rs) = if r == 0 then count rs else suc (count rs)

pub overlay-set :
    (es rs : List ℕ) (i r : ℕ)
    → length rs ≡ length es
    → overlay es (set rs i r) ≡ set (overlay es rs) i (if r == 0 then get_or es i 0 else r)
overlay-set [] rs i r h = refl
overlay-set (e ∷ es) [] i r h = absurd (omega arith)
overlay-set (e ∷ es) (s ∷ rs) zero r h = refl
overlay-set (e ∷ es) (s ∷ rs) (suc i) r h =
    ap (λ rest. (if s == 0 then e else s) ∷ rest) (overlay-set es rs i r (omega arith))

pub get_or-overlay :
    (es rs : List ℕ) (i : ℕ)
    → length rs ≡ length es
    → get_or (overlay es rs) i 0 ≡ (if get_or rs i 0 == 0 then get_or es i 0 else get_or rs i 0)
get_or-overlay [] [] i h = refl
get_or-overlay [] (r ∷ rs) i h = absurd (omega arith)
get_or-overlay (e ∷ es) [] i h = absurd (omega arith)
get_or-overlay (e ∷ es) (s ∷ rs) zero h = refl
get_or-overlay (e ∷ es) (s ∷ rs) (suc i) h = get_or-overlay es rs i (omega arith)

pub set_same : (xs : List ℕ) (i : ℕ) → set xs i (get_or xs i 0) ≡ xs
set_same [] i = refl
set_same (x ∷ xs) zero = refl
set_same (x ∷ xs) (suc i) = ap (λ rest. x ∷ rest) (set_same xs i)

pub set-set : (xs : List ℕ) (i a b : ℕ) → set (set xs i a) i b ≡ set xs i b
set-set [] i a b = refl
set-set (x ∷ xs) zero a b = refl
set-set (x ∷ xs) (suc i) a b = ap (λ rest. x ∷ rest) (set-set xs i a b)

pub count-set_more :
    (rs : List ℕ) (i r : ℕ)
    → i < length rs
    → get_or rs i 0 ≡ 0
    → r ≢ 0
    → count (set rs i r) ≡ suc (count rs)
count-set_more [] i r h z n = absurd (omega arith)
count-set_more (s ∷ rs) zero r h z n = ground arith
count-set_more (s ∷ rs) (suc i) r h z n = ground (arith, count-set_more rs i r)

pub count-set_less :
    (rs : List ℕ) (i : ℕ) → i < length rs → get_or rs i 0 ≢ 0 → suc (count (set rs i 0)) ≡ count rs
count-set_less [] i h n = absurd (omega arith)
count-set_less (s ∷ rs) zero h n = ground arith
count-set_less (s ∷ rs) (suc i) h n = ground (arith, count-set_less rs i)

pub overlay_none : (es : List ℕ) → overlay es (replicate (length es) 0) ≡ es
overlay_none [] = refl
overlay_none (e ∷ es) = ap (λ rest. e ∷ rest) (overlay_none es)

pub count_none : (n : ℕ) → count (replicate n 0) ≡ 0
count_none zero = refl
count_none (suc n) = count_none n

-- The copy is the table with the replacements in place, their number is counted, and the object points
-- at the copy exactly while there are some.
pub record Inv (v : InstanceVtable) : Type 0 where
  pub lengths : length v.replacements ≡ length v.entries
  pub shown : v.shadow_entries ≡ overlay v.entries v.replacements
  pub counted : v.enabled_count ≡ count v.replacements
  pub pointed : v.object ≡ (if v.enabled_count == 0 then v.original else v.shadow)

pub created-Inv : (original shadow : ℕ) (entries : List ℕ) → Inv (created original shadow entries)
created-Inv original shadow entries = record {
  lengths = length-replicate (length entries) 0;
  shown = sym (overlay_none entries);
  counted = sym (count_none (length entries));
  pointed = refl;
}

-- A SharedVtableHook that is refused on Enable or on Disable is left as it was, and its slot holds what it
-- held, also where the exchange was made and is rolled back as the protection of the page could not be
-- put back.
pub shared_refused :
    (p q : Protection) (h k : SharedVtableHook)
    → is_ok (enable_shared p h).0 ≡ false
    → is_ok (disable_shared q k).0 ≡ false
    → ((enable_shared p h).1 ≡ h) × ((disable_shared q k).1 ≡ k)
unfolding enable_shared disable_shared exchange_protected compare_exchange
shared_refused p q h k r s = ground arith
