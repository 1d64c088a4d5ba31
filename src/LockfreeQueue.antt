-- ===== src/LockfreeQueue.antt =====
-- boost::lockfree::queue, which memory_allocation.h, skip_list_inl.h and concurrent/queue/queue.h
-- use and do not implement: the operations that they call, and their documented behaviour.
-- `contents` lists the elements, the oldest first.
use hcl.Base.{List, [], ◌∷◌, ◌++◌, Bool, true, false, Option, some, none, ◌≡◌, ◌↔◌, refl}

pub record LockfreeQueue (A : Type 0) : Type 1 where
  pub Queue : Type 0
  pub empty : Queue
  pub push : A → Queue → Bool × Queue
  pub pop : Queue → Option (A × Queue)
  pub is_empty : Queue → Bool
  pub contents : Queue → List A
  pub contents-empty : contents empty ≡ []
  pub push_true : (a : A) (q : Queue) → (push a q).0 ≡ true
  pub contents-push : (a : A) (q : Queue) → contents (push a q).1 ≡ contents q ++ a ∷ []
  pub is_empty-nil : (q : Queue) → (is_empty q ≡ true) ↔ (contents q ≡ [])
  pub pop-nil : (q : Queue) → contents q ≡ [] → pop q ≡ none
  pub pop-cons :
      (q : Queue) (a : A) (rest : List A)
      → contents q ≡ a ∷ rest
      → (q' : Queue) × (pop q ≡ some (a, q')) × (contents q' ≡ rest)

-- a plain list meets the description
abbrev pub pop_list : {A : Type 0} → List A → Option (A × List A)
pop_list [] = none
pop_list (a ∷ rest) = some (a, rest)

abbrev pub empty_list : {A : Type 0} → List A → Bool
empty_list [] = true
empty_list (a ∷ rest) = false

pub empty_list-nil : {A : Type 0} (q : List A) → (empty_list q ≡ true) ↔ (q ≡ [])
empty_list-nil [] = (λ e. refl, λ e. refl)
empty_list-nil (a ∷ rest) = (λ e. cc, λ e. cc)

pub pop_list-nil : {A : Type 0} (q : List A) → q ≡ [] → pop_list q ≡ none
pop_list-nil q e = rw e

pub pop_list-cons :
    {A : Type 0} (q : List A) (a : A) (rest : List A)
    → q ≡ a ∷ rest
    → (q' : List A) × (pop_list q ≡ some (a, q')) × (q' ≡ rest)
pop_list-cons q a rest e = (rest, rw e, refl)

abbrev pub list_queue : (A : Type 0) → LockfreeQueue A
list_queue A = record {
  Queue = List A;
  empty = [];
  push = λ a q. (true, q ++ a ∷ []);
  pop = pop_list;
  is_empty = empty_list;
  contents = λ q. q;
  contents-empty = refl;
  push_true = λ a q. refl;
  contents-push = λ a q. refl;
  is_empty-nil = empty_list-nil;
  pop-nil = pop_list-nil;
  pop-cons = pop_list-cons;
}
