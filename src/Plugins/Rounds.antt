-- ===== src/Plugins/Rounds.antt =====
-- The rounds of StartDiscoveredPlugins, host/src/plugin_manager.cpp: they end, and leave no discovered
-- plugin waiting.
use keel_s.Common.{
  ℕ, zero, suc, ◌+◌, ◌<◌, ◌≤◌, ◌==◌, Bool, true, false, not, List, [], ◌∷◌, Option, none, some,
  length, any, All, if◌then◌else◌, ◌≡◌, ◌⊎◌, refl, sym, ap, ◌∙◌, subst, arith, ==_iff, ==_refl,
  Bool-cases, inl, inr,
}
use keel_s.Plugins.{Plugin, Diagnostic, dependency_cycle, Host, is_loading, plugin_by_handle}
use keel_s.Plugins.Environment.{Environment}
use keel_s.Plugins.Starting.{
  reject_unstarted_plugin, loads, is_loading_at, Verdict, starts, waits, refuses, Round, decide,
  visit, round, reject_cycle, rounds, start_discovered_plugins, publish_started,
}
use keel_s.Plugins.Termination.{Ends, start_plugin-Ends}
use keel_s.Plugins.Waiting.{
  NoneNew, NeverDiscovers, NoneNew-trans, NoneNew-refl, ended_later, put-NoneNew, put-ends,
  contradiction,
}

reject_unstarted_plugin-Ends :
    (d : Diagnostic) (n : ℕ) (host : Host) → Ends n host (reject_unstarted_plugin d n host)
unfolding reject_unstarted_plugin
reject_unstarted_plugin-Ends d n host = (
  put-NoneNew _ n host (λ p. refl) (λ p l. absurd (contradiction l)),
  put-ends _ n host (λ p. refl) (λ p. refl),
)

-- How many of the discovered plugins still wait.
abbrev waiting : Host → List ℕ → ℕ
waiting host [] = 0
waiting host (n ∷ ns) = (if is_loading_at host n then 1 else 0) + waiting host ns

waiting-le :
    (host host' : Host) (ns : List ℕ) → NoneNew host host' → waiting host' ns ≤ waiting host ns
waiting-le host host' [] h = omega arith
waiting-le host host' (n ∷ ns) h = ground (arith, h n, waiting-le host host' ns h)

waiting-length : (host : Host) (ns : List ℕ) → waiting host ns ≤ length ns
waiting-length host [] = omega arith
waiting-length host (n ∷ ns) = ground (arith, waiting-length host ns)

-- Some discovered plugin waited and does so no longer.
abbrev Dropped : Host → Host → List ℕ → Type 0
Dropped host host' ns =
    (n : ℕ) × (any (λ m. m == n) ns ≡ true)
    × (is_loading_at host n ≡ true)
    × (is_loading_at host' n ≡ false)

waiting-lt :
    (host host' : Host) (ns : List ℕ)
    → NoneNew host host'
    → Dropped host host' ns
    → waiting host' ns < waiting host ns
waiting-lt host host' [] h (n, i, l, e) = absurd (contradiction i)
waiting-lt host host' (m ∷ ns) h (n, i, l, e) = elim (Bool-cases (m == n)) [
  | inl here ↦
      let same : m ≡ n = (==_iff m n).0 here in
      let before : is_loading_at host m ≡ true =
        subst (λ k. is_loading_at host k ≡ true) (sym same) l in
      let after : is_loading_at host' m ≡ false =
        subst (λ k. is_loading_at host' k ≡ false) (sym same) e in
      ground (arith, waiting-le host host' ns h)
  | inr other ↦ ground (arith, h m, waiting-lt host host' ns h (n, ground arith, l, e))
]

-- What a part of a round does to the host that it began with.
pub record Went (ns : List ℕ) (r r' : Round) : Type 0 where
  pub kept : NoneNew r.host r'.host
  pub more : r.remaining ≡ true → r'.remaining ≡ true
  pub dropped : (r'.progress ≡ r.progress) ⊎ Dropped r.host r'.host ns
  pub waited : (r'.remaining ≡ true) ⊎ All (λ n. is_loading_at r'.host n ≡ false) ns

-- What the visit of one plugin does.
record Visited (n : ℕ) (r r' : Round) : Type 0 where
  kept : NoneNew r.host r'.host
  more : r.remaining ≡ true → r'.remaining ≡ true
  ended :
      (r'.progress ≡ r.progress)
      ⊎ ((is_loading_at r.host n ≡ true) × (is_loading_at r'.host n ≡ false))
  seen : (r'.remaining ≡ true) ⊎ (is_loading_at r'.host n ≡ false)

module _ (env : Environment) (quiet : NeverDiscovers env) where
  decide-Visited :
      (n : ℕ) (r : Round) (v : Verdict)
      → is_loading_at r.host n ≡ true
      → Visited n r (decide env n r v)
  decide-Visited n r (refuses d) l = record {
    kept = (reject_unstarted_plugin-Ends d n r.host).0;
    more = λ _. refl;
    ended = inr (l, (reject_unstarted_plugin-Ends d n r.host).1);
    seen = inl refl;
  }
  decide-Visited n r starts l = record {
    kept = (start_plugin-Ends env quiet n true r.host).0;
    more = λ _. refl;
    ended = inr (l, (start_plugin-Ends env quiet n true r.host).1);
    seen = inl refl;
  }
  decide-Visited n r waits l = record {
    kept = NoneNew-refl r.host;
    more = λ _. refl;
    ended = inl refl;
    seen = inl refl;
  }

  passed-Visited : (n : ℕ) (r : Round) → is_loading_at r.host n ≡ false → Visited n r r
  passed-Visited n r e = record {
    kept = NoneNew-refl r.host;
    more = λ h. h;
    ended = inl refl;
    seen = inr e;
  }

  if-Visited :
      (b : Bool) (n : ℕ) (r x y : Round)
      → (b ≡ true → Visited n r x)
      → (b ≡ false → Visited n r y)
      → Visited n r (if b then x else y)
  if-Visited true n r x y h k = h refl
  if-Visited false n r x y h k = k refl

  visit-Visited :
      (n : ℕ) (r : Round) (found : Option Plugin)
      → plugin_by_handle r.host n ≡ found
      → Visited n r (visit env n r found)
  visit-Visited n r none e = passed-Visited n r (ap loads e)
  visit-Visited n r (some p) e =
      if-Visited (not (is_loading p.state)) n r _ _
        (λ idle. passed-Visited n r (ap loads e ∙ ground arith))
        (λ busy. decide-Visited n r _ (ap loads e ∙ ground arith))

  pass_on :
      (n : ℕ) (ns : List ℕ) (r r' r'' : Round)
      → Visited n r r'
      → Went ns r' r''
      → Went (n ∷ ns) r r''
  pass_on n ns r r' r'' v w = record {
    kept = NoneNew-trans r.host r'.host r''.host v.kept w.kept;
    more = λ h. w.more (v.more h);
    dropped = elim w.dropped [
      | inl same ↦ elim v.ended [
        | inl still ↦ inl (same ∙ still)
        | inr (l, e) ↦
            inr (n, ground (arith, ==_refl n), l, ended_later n r'.host r''.host e w.kept)
      ]
      | inr (k, i, l, e) ↦ inr (k, ground arith, v.kept k l, e)
    ];
    waited = elim w.waited [
      | inl h ↦ inl h
      | inr all_ended ↦ elim v.seen [
        | inl h ↦ inl (w.more h)
        | inr e ↦ inr (ended_later n r'.host r''.host e w.kept, all_ended)
      ]
    ];
  }

  round-Went : (ns : List ℕ) (r : Round) → Went ns r (round env ns r)
  unfolding round
  round-Went [] r = record {
    kept = NoneNew-refl r.host;
    more = λ h. h;
    dropped = inl refl;
    waited = inr tt;
  }
  round-Went (n ∷ ns) r =
      pass_on n ns r (visit env n r (plugin_by_handle r.host n)) _
        (visit-Visited n r (plugin_by_handle r.host n) refl)
        (round-Went ns (visit env n r (plugin_by_handle r.host n)))

-- Once the plugins that wait for one another are rejected, none of them waits.
reject_one :
    (n : ℕ) (host : Host) (b : Bool)
    → is_loading_at host n ≡ b
    → Ends n host (if b then reject_unstarted_plugin dependency_cycle n host else host)
reject_one n host true e = reject_unstarted_plugin-Ends dependency_cycle n host
reject_one n host false e = (NoneNew-refl host, e)

reject_cycle_ends :
    (ns : List ℕ) (host : Host)
    → NoneNew host (reject_cycle ns host)
      × All (λ n. is_loading_at (reject_cycle ns host) n ≡ false) ns
unfolding reject_cycle
reject_cycle_ends [] host = (NoneNew-refl host, tt)
reject_cycle_ends (n ∷ ns) host =
    let next =
      if is_loading_at host n then reject_unstarted_plugin dependency_cycle n host else host in
    let (kept, ended) = reject_one n host (is_loading_at host n) refl in
    let (kept', all_ended) = reject_cycle_ends ns next in
    (NoneNew-trans host next _ kept kept', (ended_later n next _ ended kept', all_ended))

-- The start came to its end, and no discovered plugin still waits.
abbrev pub Ended : List ℕ → Option Host → Type 0
Ended discovered none = ⊥
Ended discovered (some host) = All (λ n. is_loading_at host n ≡ false) discovered

last_round :
    (b c : Bool) (discovered : List ℕ) (x y : Host) (z : Option Host)
    → (b ≡ false → Ended discovered (some x))
    → (b ≡ true → c ≡ false → Ended discovered (some y))
    → (b ≡ true → c ≡ true → Ended discovered z)
    → Ended discovered (if not b then some x else if not c then some y else z)
last_round false c discovered x y z f g h = f refl
last_round true false discovered x y z f g h = g refl refl
last_round true true discovered x y z f g h = h refl refl

ended-All :
    (ns : List ℕ) (a b : Host)
    → All (λ n. is_loading_at a n ≡ false) ns
    → NoneNew a b
    → All (λ n. is_loading_at b n ≡ false) ns
ended-All [] a b h k = tt
ended-All (n ∷ ns) a b (e, h) k = (ended_later n a b e k, ended-All ns a b h k)

module _ (env : Environment) (quiet : NeverDiscovers env) (discovered : List ℕ) where
  rounds-Ended :
      (fuel : ℕ) (host : Host)
      → waiting host discovered < fuel
      → Ended discovered (rounds fuel env discovered host)
  unfolding rounds
  rounds-Ended zero host h = absurd (omega arith)
  rounds-Ended (suc fuel) host h =
      let r : Round = record { host = host; remaining = false; progress = false } in
      let r' = round env discovered r in
      let w = round-Went env quiet discovered r in
      last_round r'.remaining r'.progress discovered r'.host (reject_cycle discovered r'.host)
        (rounds fuel env discovered r'.host)
        (λ none_left. elim w.waited [
          | inl e ↦ absurd (contradiction (sym none_left ∙ e))
          | inr all_ended ↦ all_ended
        ])
        (λ _ _. (reject_cycle_ends discovered r'.host).1)
        (λ _ progress. elim w.dropped [
          | inl e ↦ absurd (contradiction (sym e ∙ progress))
          | inr d ↦
              let fewer = waiting-lt host r'.host discovered w.kept d in
              rounds-Ended fuel r'.host (omega arith)
        ])

  published-Ended :
      (result : Option Host)
      → Ended discovered result
      → Ended discovered (publish_started env result)
  published-Ended none e = e
  published-Ended (some host) e =
      ended-All discovered host (env.publish_all_loaded host) e (quiet.publish_all_loaded host)

-- The start of the discovered plugins always comes to its end within one round more than there are
-- plugins, whatever their dependencies and their code, where that code discovers no plugins, and no
-- discovered plugin is left in the state `loading`, those in a dependency cycle included.
pub start_discovered_plugins-Ended :
    (env : Environment)
    → NeverDiscovers env
    → (discovered : List ℕ) (host : Host)
    → Ended discovered (start_discovered_plugins env discovered host)
unfolding start_discovered_plugins
start_discovered_plugins-Ended env quiet discovered host =
    published-Ended env quiet discovered (rounds (length discovered + 1) env discovered host) (
      rounds-Ended env quiet discovered (length discovered + 1) host
        (omega (arith, waiting-length host discovered)))
