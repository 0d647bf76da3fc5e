-- ===== src/Device/Graph/Selection.antt =====
-- What `graph_selection` chooses.
use tstlan_web.Base.{
  ◌≡◌, refl, ◌↔◌, Bool, true, false, ◌&&◌, List, [], map, keep, Among, Among-map, map-Among,
  Among-keep,
}
use tstlan_web.Base.Text.{Str, Str_discrete}
use tstlan_web.Base.Record.{has, add_all, has-add_all, AreDistinct, add_all-distinct, has-Among}
use tstlan_web.Api.{ConfigVar}
use tstlan_web.Device.Graph.{graph_selection}

-- The names on the chart by default are exactly those of the marked variables of the configuration
-- that the device has, each once.
pub graph_selection_iff :
    (vars : List ConfigVar) (names : List Str) (n : Str)
    → ((has Str_discrete n (graph_selection vars names) ≡ true)
        ↔ (((v : ConfigVar) × Among v vars × (v.graph ≡ true) × (v.name ≡ n)) × Among n names))
      × AreDistinct Str_discrete (graph_selection vars names)
unfolding graph_selection has
graph_selection_iff vars names n = ((to, from), add_all-distinct Str_discrete [] _ tt)
  where
    marked : ConfigVar → Bool
    marked v = v.graph && has Str_discrete v.name (add_all Str_discrete [] names)

    chosen : List Str
    chosen = map (λ v. v.name) (keep marked vars)

    present :
        (k : Str) (xs : List Str)
        → (has Str_discrete k (add_all Str_discrete [] xs) ≡ true) ↔ Among k xs
    present k xs = rw (has-add_all Str_discrete k [] xs) (has-Among Str_discrete k xs)

    and_both : (a b : Bool) → (a && b) ≡ true → (a ≡ true) × (b ≡ true)
    and_both true b h = (refl, h)
    and_both false b h = absurd (cc)

    to :
        has Str_discrete n (add_all Str_discrete [] chosen) ≡ true
        → ((v : ConfigVar) × Among v vars × (v.graph ≡ true) × (v.name ≡ n)) × Among n names
    to h =
        let (v, a, e) =
          Among-map (λ (w : ConfigVar). w.name) n (keep marked vars) ((present n chosen).0 h) in
        let (b, m) = (Among-keep marked v vars).0 a in
        let (g, p) = and_both v.graph _ m in ((v, b, g, e), rw e at ((present v.name names).0 p))

    from :
        ((v : ConfigVar) × Among v vars × (v.graph ≡ true) × (v.name ≡ n)) × Among n names
        → has Str_discrete n (add_all Str_discrete [] chosen) ≡ true
    from ((v, b, g, e), k) =
        let p = (present v.name names).1 (rw (← e) at k) in
        (present n chosen).1 (
          rw e at (
            map-Among (λ (w : ConfigVar). w.name) v (keep marked vars)
              ((Among-keep marked v vars).1 (b, rw (g, p) refl))))
