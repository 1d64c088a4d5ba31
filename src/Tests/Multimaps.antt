-- ===== src/Tests/Multimaps.antt =====
-- The multimap at concrete inputs: two servers, plain lists for the Boost multimaps, a network that
-- runs what the servers have bound.
use hcl.Base.{leb, ◌+◌, ◌&&◌, ◌≤◌, not, ℕ, ◌≡◌, refl, Bool, List, [], ◌∷◌, some, none, hits, arith}
use hcl.Container.{Container, direct_network}
use hcl.Container.Gather.{all_of}
use hcl.Container.Placed.{replicate, issue, one_map}
use hcl.HashKey.{int_key, int_sort}
use hcl.Multimap.{contains, related}
use hcl.Multimap.Ascending.{at_least, ascending, Convex, wanted}
use hcl.Multimap.InFront.{below}
use hcl.Multimap.OneServer.{below_part}
use hcl.Multimap.Search.{AllOrdered, singles, contains-related}
use hcl.Multimap.Listed.{listed}
use hcl.Multimap.Series.{
  MultimapCall, put_call, get_call, erase_call, send, key_of, answer, value_after, issue-last_put,
}
use hcl.Tests.Containers.{near, far}

abbrev multimap_calls : List (Container × MultimapCall ℕ ℕ)
multimap_calls =
    (near, put_call 3 30)
    ∷ (far, put_call 3 31)
    ∷ (far, get_call 3)
    ∷ (near, erase_call 3)
    ∷ (near, get_call 3)
    ∷ []

issue-last_put_example :
    issue (send (listed ℕ ℕ) (direct_network (List (ℕ × ℕ))) 0 2) (replicate 2 []) multimap_calls
    ≡ some (one_map key_of (answer 0) value_after multimap_calls (λ q. none))
issue-last_put_example =
    issue-last_put (listed ℕ ℕ) (direct_network (List (ℕ × ℕ))) 0 2 multimap_calls (omega arith)
      (omega arith)

abbrev multimaps : List (List (ℕ × ℕ))
multimaps = ((2, 20) ∷ (4, 40) ∷ (4, 41) ∷ (5, 50) ∷ (6, 60) ∷ []) ∷ ((3, 30) ∷ (4, 42) ∷ []) ∷ []

-- a key covers itself and its two neighbours
abbrev covers : ℕ → ℕ → Bool
covers a b = leb a (b + 1) && leb b (a + 1)

multimaps-AllOrdered : AllOrdered (listed ℕ ℕ) covers 4 multimaps
unfolding AllOrdered ascending at_least
multimaps-AllOrdered =
    (record { order = refl; bound = refl }, (record { order = refl; bound = refl }, tt))

covers-Convex : Convex (listed ℕ ℕ) covers 4
unfolding Convex
covers-Convex i j high above near = ground arith

contains-related_example :
    (out : List (ℕ × ℕ)) × (contains
        (listed ℕ ℕ)
        (direct_network (List (ℕ × ℕ)))
        covers
        near
        multimaps
        4
      ≡ some (out, multimaps))
    × ((p : ℕ × ℕ → Bool)
        → hits (wanted (listed ℕ ℕ) covers 4 p) out
          ≡ hits (wanted (listed ℕ ℕ) covers 4 p) (all_of (λ (es : List (ℕ × ℕ)). es) multimaps))
    × ((p : ℕ × ℕ → Bool)
        → hits (below (listed ℕ ℕ) covers 4 p) out
          ≡ hits
              (below (listed ℕ ℕ) covers 4 p)
              (all_of (below_part (listed ℕ ℕ) covers 4) multimaps))
    × ((p : ℕ × ℕ → Bool) → hits p out ≤ hits p (all_of (λ (es : List (ℕ × ℕ)). es) multimaps))
    × (hits (λ e. not (related (listed ℕ ℕ) covers 4 e)) out
        ≤ singles (listed ℕ ℕ) covers multimaps)
contains-related_example =
    contains-related (listed ℕ ℕ) covers (direct_network (List (ℕ × ℕ))) near multimaps 4 refl
      (omega arith) multimaps-AllOrdered covers-Convex
