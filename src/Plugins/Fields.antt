-- ===== src/Plugins/Fields.antt =====
-- A write to one plugin's record, host/src/plugin_manager.cpp: what finds a plugin finds it still.
use keel_s.Common.{
  ℕ, ◌==◌, Bool, true, false, ◌&&◌, ◌||◌, not, List, [], ◌∷◌, none, some, all, find, All,
  if◌then◌else◌, ◌≡◌, ◌≢◌, ◌⊎◌, refl, ◌∙◌, subst, arith, Bool-cases, inl, inr, find-head,
}
use keel_s.Text.{Bytes, equal_insensitive}
use keel_s.Plugins.{Plugin, Host, is_loaded, write_plugin}
use keel_s.Plugins.Depend.{is_ready, check_dependencies, dependencies_ready}
use keel_s.Plugins.Running.{Supported}

-- The write leaves what a dependency names and needs of the record.
pub record Keeps (f : Plugin → Plugin) : Type 0 where
  pub handle : (p : Plugin) → (f p).handle ≡ p.handle
  pub name : (p : Plugin) → (f p).name ≡ p.name
  pub selectable : (p : Plugin) → (f p).selectable ≡ p.selectable
  pub version : (p : Plugin) → (f p).version ≡ p.version
  pub dependencies : (p : Plugin) → (f p).dependencies ≡ p.dependencies

pub Keeps-intro :
    (f : Plugin → Plugin)
    → ((p : Plugin)
        → ((f p).handle ≡ p.handle)
          × ((f p).name ≡ p.name)
          × ((f p).selectable ≡ p.selectable)
          × ((f p).version ≡ p.version)
          × ((f p).dependencies ≡ p.dependencies))
    → Keeps f
Keeps-intro f h = record {
  handle = λ p. (h p).0;
  name = λ p. (h p).1;
  selectable = λ p. (h p).2;
  version = λ p. (h p).3;
  dependencies = λ p. (h p).4;
}

abbrev pub healthy_in : List Plugin → Plugin → Bool
healthy_in ps q =
    not (is_loaded q.state) || is_ready (check_dependencies ps q.handle q.dependencies)

-- `Supported`, of the list alone.
abbrev pub SupportedIn : List Plugin → Type 0
SupportedIn ps = all (healthy_in ps) ps ≡ true

pub Supported-list : (host : Host) → Supported host → SupportedIn host.plugins
unfolding dependencies_ready
Supported-list host s = s

pub list-Supported : (host : Host) → SupportedIn host.plugins → Supported host
unfolding dependencies_ready
list-Supported host s = s

abbrev pub names : Bytes → Plugin → Bool
names name p = p.selectable && equal_insensitive p.name name

pub find_hit :
    (test : Plugin → Bool) (b : Bool) (y p : Plugin) (rest : List Plugin)
    → test y ≡ test p
    → test p ≡ true
    → find test ((if b then y else p) ∷ rest) ≡ some (if b then y else p)
find_hit test true y p rest same h = ground arith
find_hit test false y p rest same h = ground arith

pub find_miss :
    (test : Plugin → Bool) (b : Bool) (y p : Plugin) (rest : List Plugin)
    → test y ≡ test p
    → test p ≡ false
    → find test ((if b then y else p) ∷ rest) ≡ find test rest
find_miss test true y p rest same h = ground arith
find_miss test false y p rest same h = ground arith

pub find-write_plugin :
    (test : Plugin → Bool) (f : Plugin → Plugin) (t : ℕ) (ps : List Plugin) (x : Plugin)
    → ((p : Plugin) → test (f p) ≡ test p)
    → find test ps ≡ some x
    → find test (write_plugin t f ps) ≡ some (if x.handle == t then f x else x)
find-write_plugin test f t [] x same e = absurd (ground arith)
find-write_plugin test f t (p ∷ ps) x same e = elim (Bool-cases (test p)) [
  | inl h ↦
      subst (λ y. find test (write_plugin t f (p ∷ ps)) ≡ some (if y.handle == t then f y else y))
        (find-head test p ps x h e)
        (find_hit test (p.handle == t) (f p) p (write_plugin t f ps) (same p) h)
  | inr h ↦
      find_miss test (p.handle == t) (f p) p (write_plugin t f ps) (same p) h
      ∙ find-write_plugin test f t ps x same (ground arith)
]

pub find-write_plugin-none :
    (test : Plugin → Bool) (f : Plugin → Plugin) (t : ℕ) (ps : List Plugin)
    → ((p : Plugin) → test (f p) ≡ test p)
    → find test ps ≡ none
    → find test (write_plugin t f ps) ≡ none
find-write_plugin-none test f t [] same e = refl
find-write_plugin-none test f t (p ∷ ps) same e = elim (Bool-cases (test p)) [
  | inl h ↦ absurd (ground arith)
  | inr h ↦
      find_miss test (p.handle == t) (f p) p (write_plugin t f ps) (same p) h
      ∙ find-write_plugin-none test f t ps same (ground arith)
]

pub no_target : {A : Type 0} {a : A} → none ≡ some a → ⊥
no_target e = cc

pub find-All :
    (P : Plugin → Type 0) (test : Plugin → Bool) (ps : List Plugin) (x : Plugin)
    → All P ps
    → find test ps ≡ some x
    → P x
find-All P test [] x h e = absurd (no_target e)
find-All P test (p ∷ ps) x (h, hs) e = elim (Bool-cases (test p)) [
  | inl found ↦ subst P (find-head test p ps x found e) h
  | inr passed ↦ find-All P test ps x hs (ground arith)
]

pub idle_runs :
    {t : ℕ} (x : Plugin)
    → (x.handle ≢ t) ⊎ (is_loaded x.state ≡ false)
    → x.handle ≡ t
    → is_loaded x.state ≡ true
    → ⊥
idle_runs x (inl away) there l = away there
idle_runs x (inr idle) there l = ground arith
