-- ===== src/Multimap/Search.antt =====
-- Contains of the multimap: what all servers answer together.
use hcl.Base.{
  to_nat, ℕ, ◌+◌, ◌≡◌, ◌≤◌, ◌<◌, refl, ◌∙◌, Bool, not, List, [], ◌∷◌, some, length, filter, hits,
  hits-append, arith, ◌==◌,
}
use hcl.Container.{Container, Network}
use hcl.Container.Gather.{all_of, gather-all_of}
use hcl.HashKey.{HashKey, SortKey}
use hcl.Multimap.{MultiContainer, related, local_contains, contains}
use hcl.Multimap.InFront.{below}
use hcl.Multimap.Ascending.{Convex, wanted}
use hcl.Multimap.OneServer.{IsOrdered, Answers, answers, below_part}

module _ {K V : Type 0} ⦃key : HashKey K⦄ ⦃sort : SortKey K⦄ (C : MultiContainer K V)
    (covers : K → K → Bool) where
  abbrev found : K → C.Store → List (K × V)
  found k s = (answers C covers k s).0

  found-fewer :
      (k : K) (p : K × V → Bool) (servers : List C.Store)
      → hits p (all_of (found k) servers) ≤ hits p (all_of C.elements servers)
  unfolding all_of filter Answers
  found-fewer k p [] = omega arith
  found-fewer k p (s ∷ ss) = omega (
    arith,
    found-fewer k p ss,
    (answers C covers k s).1.1 p,
    hits-append p (found k s) (all_of (found k) ss),
    hits-append p (C.elements s) (all_of C.elements ss),
  )

  -- how many servers have just one element
  unfoldable pub singles : List C.Store → ℕ
  singles [] = 0
  singles (s ∷ ss) = to_nat (length (C.elements s) == 1) + singles ss

  found-related :
      (k : K) (servers : List C.Store)
      → hits (λ e. not (related C covers k e)) (all_of (found k) servers) ≤ singles servers
  unfolding all_of filter Answers singles
  found-related k [] = omega arith
  found-related k (s ∷ ss) = omega (
    arith,
    found-related k ss,
    (answers C covers k s).1.2,
    hits-append (λ e. not (related C covers k e)) (found k s) (all_of (found k) ss),
  )

  unfoldable pub AllOrdered : K → List C.Store → Type 0
  AllOrdered k [] = Unit {0}
  AllOrdered k (s ∷ ss) = IsOrdered C covers k s × AllOrdered k ss

  found-wanted :
      (k : K) (p : K × V → Bool) (servers : List C.Store)
      → AllOrdered k servers
      → Convex C covers k
      → hits (wanted C covers k p) (all_of (found k) servers)
        ≡ hits (wanted C covers k p) (all_of C.elements servers)
  unfolding all_of filter Answers AllOrdered
  found-wanted k p [] ordered convex = refl
  found-wanted k p (s ∷ ss) (first, ordered) convex = omega (
    arith,
    found-wanted k p ss ordered convex,
    (answers C covers k s).1.3 first convex p,
    hits-append (wanted C covers k p) (found k s) (all_of (found k) ss),
    hits-append (wanted C covers k p) (C.elements s) (all_of C.elements ss),
  )

  found-below :
      (k : K) (p : K × V → Bool) (servers : List C.Store)
      → AllOrdered k servers
      → hits (below C covers k p) (all_of (found k) servers)
        ≡ hits (below C covers k p) (all_of (below_part C covers k) servers)
  unfolding all_of filter Answers AllOrdered
  found-below k p [] ordered = refl
  found-below k p (s ∷ ss) (first, ordered) = omega (
    arith,
    found-below k p ss ordered,
    (answers C covers k s).1.4 first p,
    hits-append (below C covers k p) (found k s) (all_of (found k) ss),
    hits-append (below C covers k p) (below_part C covers k s) (all_of (below_part C covers k) ss),
  )

  -- Contains, by a client that counts the servers and whose own server is one of them, on servers
  -- whose elements stand in ascending order and whose lower_bound finds the first one that is not
  -- below the argument, returns and changes nothing. A key is related to the argument if one of the
  -- two covers the other; every key between the argument and a larger related one shall be related.
  -- Then of the elements that are related to the argument and not below it, the answer has each one
  -- as often as the servers hold it; of those below it, just the last one of each server, where one
  -- that is not below comes next and the argument covers it, and that of a server with just one
  -- element; of all elements, it has none more often than the servers hold it; and it has no more
  -- unrelated ones than there are servers with just one element.
  pub contains-related :
      (net : Network C.Store) (c : Container) (servers : List C.Store) (k : K)
      → c.num_servers ≡ length servers
      → c.my_server_idx < length servers
      → AllOrdered k servers
      → Convex C covers k
      → (out : List (K × V)) × (contains C net covers c servers k ≡ some (out, servers))
        × ((p : K × V → Bool)
            → hits (wanted C covers k p) out
              ≡ hits (wanted C covers k p) (all_of C.elements servers))
        × ((p : K × V → Bool)
            → hits (below C covers k p) out
              ≡ hits (below C covers k p) (all_of (below_part C covers k) servers))
        × ((p : K × V → Bool) → hits p out ≤ hits p (all_of C.elements servers))
        × (hits (λ e. not (related C covers k e)) out ≤ singles servers)
  unfolding contains Answers
  contains-related net c servers k count here ordered convex =
      let method = local_contains C covers in
      let (out, run, same) =
        gather-all_of c method (net.rpc method) k (found k) (λ s. (answers C covers k s).1.0)
          servers count here in
      (
        out,
        run,
        λ p. same (wanted C covers k p) ∙ found-wanted k p servers ordered convex,
        λ p. same (below C covers k p) ∙ found-below k p servers ordered,
        λ p. omega (arith, same p, found-fewer k p servers),
        omega (arith, same (λ e. not (related C covers k e)), found-related k servers),
      )
