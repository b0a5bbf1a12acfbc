-- ===== src/Plugins/Waiting.antt =====
-- Which writes and calls of host/src/plugin_manager.cpp leave no plugin waiting to be started that did not
-- wait before.
use keel_s.Common.{
  ℕ, ◌==◌, Bool, true, false, List, [], ◌∷◌, Option, none, some, All, if◌then◌else◌, ◌≡◌, refl, sym,
  ap, ◌∙◌, arith, ==_refl, Bool-cases, inl, inr,
}
use keel_s.Plugins.{Plugin, Host, is_loading, plugin_in, plugin_by_handle, write_plugin, put_plugin}
use keel_s.Plugins.Environment.{Environment, Layer, PluginEvent, release_all, activate_all}
use keel_s.Plugins.Starting.{loads, is_loading_at}

pub contradiction : false ≡ true → ⊥
contradiction e = ground arith

-- No plugin starts to wait: what loads in the second host loaded in the first.
abbrev pub NoneNew : Host → Host → Type 0
NoneNew host host' = (k : ℕ) → is_loading_at host' k ≡ true → is_loading_at host k ≡ true

-- What the program relies on: neither plugin code nor a layer gives a plugin the state `loading`, which
-- only DiscoverPlugin does, and commands out of a callback are deferred.
pub record NeverDiscovers (env : Environment) : Type 0 where
  pub load : (n : ℕ) (host : Host) → NoneNew host (env.load n host).1
  pub unload : (n : ℕ) (host : Host) → NoneNew host (env.unload n host)
  pub prepare_pause : (n : ℕ) (host : Host) → NoneNew host (env.prepare_pause n host).1
  pub prepare_unload : (n : ℕ) (host : Host) → NoneNew host (env.prepare_unload n host).1
  pub releases : All (λ layer. (n : ℕ) (host : Host) → NoneNew host (layer n host).1) env.releases
  pub activates : All (λ layer. (n : ℕ) (host : Host) → NoneNew host (layer n host)) env.activates
  pub publish : (e : PluginEvent) (n : ℕ) (host : Host) → NoneNew host (env.publish e n host)
  pub publish_all_loaded : (host : Host) → NoneNew host (env.publish_all_loaded host)

pub NoneNew-trans : (a b c : Host) → NoneNew a b → NoneNew b c → NoneNew a c
NoneNew-trans a b c h k n l = h n (k n l)

pub NoneNew-refl : (a : Host) → NoneNew a a
NoneNew-refl a n l = l

pub NoneNew-if :
    (b : Bool) (a x y : Host) → NoneNew a x → NoneNew a y → NoneNew a (if b then x else y)
NoneNew-if true a x y h k = h
NoneNew-if false a x y h k = k

-- A write to a record that keeps its handle is seen through that handle alone.
abbrev pub write_found : Bool → (Plugin → Plugin) → Option Plugin → Option Plugin
write_found b f none = none
write_found true f (some p) = some (f p)
write_found false f (some p) = some p

pub plugin_in-write_plugin :
    (f : Plugin → Plugin) (n k : ℕ) (ps : List Plugin)
    → ((p : Plugin) → (f p).handle ≡ p.handle)
    → plugin_in k (write_plugin n f ps) ≡ write_found (k == n) f (plugin_in k ps)
plugin_in-write_plugin f n k [] same = refl
plugin_in-write_plugin f n k (p ∷ ps) same =
    ground (arith, same p, plugin_in-write_plugin f n k ps same)

pub loads-write_found :
    (b : Bool) (f : Plugin → Plugin) (o : Option Plugin)
    → ((p : Plugin) → is_loading (f p).state ≡ true → is_loading p.state ≡ true)
    → loads (write_found b f o) ≡ true
    → loads o ≡ true
loads-write_found b f none still l = l
loads-write_found true f (some p) still l = still p l
loads-write_found false f (some p) still l = l

-- A write that gives no record the state `loading`.
pub put-NoneNew :
    (f : Plugin → Plugin) (n : ℕ) (host : Host)
    → ((p : Plugin) → (f p).handle ≡ p.handle)
    → ((p : Plugin) → is_loading (f p).state ≡ true → is_loading p.state ≡ true)
    → NoneNew host (put_plugin n f host)
unfolding plugin_by_handle
put-NoneNew f n host same still k l =
    loads-write_found (k == n) f (plugin_in k host.plugins) still
      (sym (ap loads (plugin_in-write_plugin f n k host.plugins same)) ∙ l)

pub loads-write_ends :
    (f : Plugin → Plugin) (o : Option Plugin)
    → ((p : Plugin) → is_loading (f p).state ≡ false)
    → loads (write_found true f o) ≡ false
loads-write_ends f none ends = refl
loads-write_ends f (some p) ends = ends p

-- A write that ends the state `loading`.
pub put-ends :
    (f : Plugin → Plugin) (n : ℕ) (host : Host)
    → ((p : Plugin) → (f p).handle ≡ p.handle)
    → ((p : Plugin) → is_loading (f p).state ≡ false)
    → is_loading_at (put_plugin n f host) n ≡ false
unfolding plugin_by_handle
put-ends f n host same ends =
    ap loads (plugin_in-write_plugin f n n host.plugins same)
    ∙ ap (λ b. loads (write_found b f (plugin_in n host.plugins))) (==_refl n)
    ∙ loads-write_ends f (plugin_in n host.plugins) ends

pub ended_later :
    (n : ℕ) (a b : Host) → is_loading_at a n ≡ false → NoneNew a b → is_loading_at b n ≡ false
ended_later n a b h k = elim (Bool-cases (is_loading_at b n)) [
  | inl l ↦ absurd (contradiction (sym h ∙ k n l))
  | inr e ↦ e
]

pub NoneNew-if_result {ℓ} :
    {A : Type ℓ} (b : Bool) (a : Host) (x y : A × Host)
    → NoneNew a x.1
    → NoneNew a y.1
    → NoneNew a (if b then x else y).1
NoneNew-if_result true a x y h k = h
NoneNew-if_result false a x y h k = k

-- A write of fields that are neither the handle nor the state.
abbrev pub Minor : (Plugin → Plugin) → Type 0
Minor f = (p : Plugin) → ((f p).handle ≡ p.handle) × ((f p).state ≡ p.state)

pub minor-NoneNew :
    (f : Plugin → Plugin) (n : ℕ) (host : Host) → Minor f → NoneNew host (put_plugin n f host)
minor-NoneNew f n host m =
    put-NoneNew f n host (λ p. (m p).0) (λ p l. ap is_loading (sym (m p).1) ∙ l)

pub same_plugins-NoneNew : (a b : Host) → a.plugins ≡ b.plugins → NoneNew a b
unfolding plugin_by_handle
same_plugins-NoneNew a b e k l = ap (λ ps. loads (plugin_in k ps)) e ∙ l

pub release_all-NoneNew :
    (layers : List Layer) (n : ℕ) (host : Host)
    → All (λ layer. (n : ℕ) (host : Host) → NoneNew host (layer n host).1) layers
    → NoneNew host (release_all layers n host).1
release_all-NoneNew [] n host h = NoneNew-refl host
release_all-NoneNew (layer ∷ layers) n host (h, hs) =
    NoneNew-trans host (layer n host).1 _ (h n host)
      (release_all-NoneNew layers n (layer n host).1 hs)

pub activate_all-NoneNew :
    (layers : List (ℕ → Host → Host)) (n : ℕ) (host : Host)
    → All (λ layer. (n : ℕ) (host : Host) → NoneNew host (layer n host)) layers
    → NoneNew host (activate_all layers n host)
activate_all-NoneNew [] n host h = NoneNew-refl host
activate_all-NoneNew (layer ∷ layers) n host (h, hs) =
    NoneNew-trans host (layer n host) _ (h n host) (activate_all-NoneNew layers n (layer n host) hs)
