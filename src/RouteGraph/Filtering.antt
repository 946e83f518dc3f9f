-- ===== src/RouteGraph/Filtering.antt =====
-- route_graph.py: the evaluation keeps the routes that no dependency blocks.
use flyto_robotics.Prelude.{◌≡◌, ℕ, ◌+◌, ◌≤◌, ◌⊎◌, Bool, true, [], length, All, Any, text_le}
use flyto_robotics.Python.{Fields, Runtime}
use flyto_robotics.RouteGraph.{
  RouteGraph, RouteItem, RouteEvaluation, Evidence, is_blocking, is_excluded,
}
use flyto_robotics.RouteGraph.Gathered.{IsFrom}
use flyto_robotics.RouteGraph.Usable.{IsUsable}

module _ {F : Type 0} ⦃rt : Runtime F⦄ where
  -- A candidate has no reason against it, and only usable dependencies.
  abbrev pub IsCandidate : RouteItem F → Type 0
  IsCandidate item = (item.exclusion_reasons ≡ []) × All IsUsable item.dependencies

  -- An excluded route has a reason against it, and a dependency that blocks.
  abbrev pub IsBarred : RouteItem F → Type 0
  IsBarred item =
      (is_excluded item ≡ true) × Any (λ (e : Evidence F). is_blocking e ≡ true) item.dependencies

module _ {F : Type 0} ⦃rt : Runtime F⦄ where
  -- What an evaluation returns: items of routes of the graph, each with the evidence of every
  -- dependency of its route; candidates that no dependency blocks, one at least and not more than the
  -- limit; the routes that are excluded, each by a dependency that blocks; and no route is lost but
  -- by the limit.
  pub record IsEvaluation (graph : RouteGraph F) (observations : Fields F) (limit : ℕ)
      (ev : RouteEvaluation F) : Type 0 where
    pub assessed :
        All (IsFrom observations ev.phase graph.routes) ev.candidates
        × All (IsFrom observations ev.phase graph.routes) ev.excluded
    pub usable : All IsCandidate ev.candidates
    pub barred : All IsBarred ev.excluded
    pub counted :
        (ev.candidate_count ≡ length ev.candidates) × (ev.excluded_count ≡ length ev.excluded)
    pub some_route : 1 ≤ ev.candidate_count
    pub at_most : ev.candidate_count ≤ limit
    pub nothing_lost :
        (ev.candidate_count ≡ limit)
        ⊎ (ev.candidate_count + ev.excluded_count ≡ length graph.routes)

  abbrev by_id : RouteItem F → RouteItem F → Bool
  by_id a b = text_le a.route_id b.route_id
