-- ===== src/Dispatch.antt =====
-- All the containers, and the clocks, on one engine: each binds its functions under its own name, and a remote call of one
-- of its methods runs the method that the local call runs. Two containers of one name are not covered: the
-- second one takes the names of the first.
use hcl.Base.{
  ℕ, zero, suc, ◌≡◌, ◌≢◌, refl, ap, ◌∙◌, subst, Bool, true, false, ◌&&◌, leb, length, List, [], ◌∷◌,
  Option, some, get_elem?, if◌then◌else◌, arith,
}
use mathlib.Core.Option.{some-injective}
use hcl.Strings.{lacks, same_text}
use hcl.Container.Names.{Binding, Method, Registry, codes, bind_functions, call}
use hcl.Container.Names.Reach.{
  IsName, AllNames, IsPrefix, last_bound, bound_functions, text, bind_functions-call,
}
use hcl.ConcurrentMap
use hcl.ConcurrentQueue
use hcl.ConcurrentSkiplist
use hcl.GlobalClock
use hcl.GlobalSequence
use hcl.Map
use hcl.Multimap
use hcl.PriorityQueue
use hcl.Queue
use hcl.Set
use hcl.UnorderedMap
use hcl.Vector

pub data Kind : Type 0 where
  set map multimap unordered_map queue priority_queue vector global_sequence concurrent_queue
        concurrent_skiplist concurrent_unordered_map global_clock :
      Kind

-- what each kind of container binds
abbrev pub bindings_of : Kind → List Binding
bindings_of set = Set.bindings
bindings_of map = Map.bindings
bindings_of multimap = Multimap.bindings
bindings_of unordered_map = UnorderedMap.bindings
bindings_of queue = Queue.bindings
bindings_of priority_queue = PriorityQueue.bindings
bindings_of vector = Vector.bindings
bindings_of global_sequence = GlobalSequence.bindings
bindings_of concurrent_queue = ConcurrentQueue.bindings
bindings_of concurrent_skiplist = ConcurrentSkiplist.bindings
bindings_of concurrent_unordered_map = ConcurrentMap.bindings
bindings_of global_clock = GlobalClock.bindings

-- what its client methods call
abbrev pub remote_calls_of : Kind → List Binding
remote_calls_of set = Set.remote_calls
remote_calls_of map = Map.remote_calls
remote_calls_of multimap = Multimap.remote_calls
remote_calls_of unordered_map = UnorderedMap.remote_calls
remote_calls_of queue = Queue.remote_calls
remote_calls_of priority_queue = PriorityQueue.remote_calls
remote_calls_of vector = Vector.remote_calls
remote_calls_of global_sequence = GlobalSequence.remote_calls
remote_calls_of concurrent_queue = ConcurrentQueue.remote_calls
remote_calls_of concurrent_skiplist = ConcurrentSkiplist.remote_calls
remote_calls_of concurrent_unordered_map = ConcurrentMap.remote_calls
remote_calls_of global_clock = GlobalClock.remote_calls

is_name : List ℕ → Bool
is_name name = lacks b'_' name && lacks 0 name && leb (length name) 16

is_name-IsName : (name : List ℕ) → is_name name ≡ true → IsName name
unfolding is_name
is_name-IsName name e = record { plain = ground arith; clean = ground arith; short = ground arith }

all_names : List Binding → Bool
all_names [] = true
all_names ((name, m) ∷ bindings) = is_name name && all_names bindings

all_names-AllNames : (bindings : List Binding) → all_names bindings ≡ true → AllNames bindings
unfolding all_names
all_names-AllNames [] e = tt
all_names-AllNames ((name, m) ∷ bindings) e =
    (is_name-IsName name (ground arith), all_names-AllNames bindings (ground arith))

all_names-elem :
    (calls : List Binding) (i : ℕ) (name : List ℕ) (m : Method)
    → all_names calls ≡ true
    → get_elem? calls i ≡ some (name, m)
    → IsName name
unfolding all_names
all_names-elem [] i name m e there = absurd (cc)
all_names-elem ((n, k) ∷ calls) zero name m e there =
    let same : n ≡ name = ap (λ (b : Binding). b.0) (some-injective (n, k) (name, m) there) in
    subst IsName same (is_name-IsName n (ground arith))
all_names-elem ((n, k) ∷ calls) (suc i) name m e there =
    all_names-elem calls i name m (ground arith) there

-- the name that no container binds
abbrev unbound_name : List ℕ
unbound_name = codes "SeekFirstN"

module _ {F : Type 0} (func : Method → F) where
  -- under the name of a call stands its method, whatever was there before
  abbrev Reaches : List Binding → Binding → Type 0
  Reaches bindings (name, m) =
      if same_text name unbound_name
      then Unit {0}
      else ((before : Option F)
          → last_bound name (bound_functions func bindings) before ≡ some (func m))

  abbrev AllReach : List Binding → List Binding → Type 0
  AllReach bindings [] = Unit {0}
  AllReach bindings (b ∷ calls) = Reaches bindings b × AllReach bindings calls

  AllReach-elem :
      (bindings calls : List Binding) (i : ℕ) (b : Binding)
      → AllReach bindings calls
      → get_elem? calls i ≡ some b
      → Reaches bindings b
  AllReach-elem bindings [] i b all there = absurd (cc)
  AllReach-elem bindings (c ∷ calls) zero b all there =
      subst (Reaches bindings) (some-injective c b there) all.0
  AllReach-elem bindings (c ∷ calls) (suc i) b all there =
      AllReach-elem bindings calls i b all.1 there

  bindings_of-AllReach : (k : Kind) → AllReach (bindings_of k) (remote_calls_of k)
  unfolding last_bound same_text
  bindings_of-AllReach set = (
    λ b. refl,
    (
      λ b. refl,
      (λ b. refl, (λ b. refl, (λ b. refl, (λ b. refl, (tt, (λ b. refl, (λ b. refl, tt))))))),
    ),
  )
  bindings_of-AllReach map = (λ b. refl, (λ b. refl, (λ b. refl, (λ b. refl, (λ b. refl, tt)))))
  bindings_of-AllReach multimap =
      (λ b. refl, (λ b. refl, (λ b. refl, (λ b. refl, (λ b. refl, tt)))))
  bindings_of-AllReach unordered_map = (λ b. refl, (λ b. refl, (λ b. refl, (λ b. refl, tt))))
  bindings_of-AllReach queue = (λ b. refl, (λ b. refl, (λ b. refl, (λ b. refl, tt))))
  bindings_of-AllReach priority_queue = (λ b. refl, (λ b. refl, (λ b. refl, (λ b. refl, tt))))
  bindings_of-AllReach vector = (λ b. refl, (λ b. refl, (λ b. refl, tt)))
  bindings_of-AllReach global_sequence = (λ b. refl, tt)
  bindings_of-AllReach concurrent_queue = (λ b. refl, (λ b. refl, tt))
  bindings_of-AllReach concurrent_skiplist = (λ b. refl, (λ b. refl, (λ b. refl, tt)))
  bindings_of-AllReach concurrent_unordered_map =
      (λ b. refl, (λ b. refl, (λ b. refl, (λ b. refl, (λ b. refl, tt)))))
  bindings_of-AllReach global_clock = (λ b. refl, tt)

other_name : {T : Type 0} (b : Bool) → b ≡ false → (if b then Unit {0} else T) → T
other_name true e x = absurd (cc)
other_name false e x = x

names_of : (k : Kind) → (all_names (bindings_of k) ≡ true) × (all_names (remote_calls_of k) ≡ true)
unfolding all_names is_name lacks
names_of set = (refl, refl)
names_of map = (refl, refl)
names_of multimap = (refl, refl)
names_of unordered_map = (refl, refl)
names_of queue = (refl, refl)
names_of priority_queue = (refl, refl)
names_of vector = (refl, refl)
names_of global_sequence = (refl, refl)
names_of concurrent_queue = (refl, refl)
names_of concurrent_skiplist = (refl, refl)
names_of concurrent_unordered_map = (refl, refl)
names_of global_clock = (refl, refl)

-- Two containers of any kinds, clocks included, whose names differ and leave room for those of their
-- methods, bind their functions on one engine one after the other: both return, and a remote call of
-- the first one, under a name that a method of its kind calls, then runs the method that the local
-- branch of this method runs; but for SeekFirstN, whose binding is commented out.
pub call-own_method :
    {F : Type 0} (R : Registry F) (func func' : Method → F) (k k' : Kind) (p q : List ℕ)
    (table : R.Table) (i : ℕ) (name : List ℕ) (m : Method)
    → IsPrefix p × IsPrefix q × (p ≢ q)
    → get_elem? (remote_calls_of k) i ≡ some (name, m)
    → same_text name (codes "SeekFirstN") ≡ false
    → (table' table'' : R.Table) × (bind_functions R func (text p) (bindings_of k) table
        ≡ some table')
      × (bind_functions R func' (text q) (bindings_of k') table' ≡ some table'')
      × (call R (text p) name table'' ≡ some (func m))
call-own_method R func func' k k' p q table i name m apart there bound =
    let named = names_of k in
    let (table', table'', runs, runs', reaches) =
      bind_functions-call R func func' p q name (bindings_of k) (bindings_of k') table apart
        (all_names-elem (remote_calls_of k) i name m named.1 there)
        (
          all_names-AllNames (bindings_of k) named.0,
          all_names-AllNames (bindings_of k') (names_of k').0,
        ) in
    let own =
      AllReach-elem func (bindings_of k) (remote_calls_of k) i (name, m)
        (bindings_of-AllReach func k) there in
    (
      table',
      table'',
      runs,
      runs',
      reaches ∙ other_name (same_text name unbound_name) bound own (call R (text p) name table),
    )
