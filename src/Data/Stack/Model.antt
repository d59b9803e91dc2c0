-- ===== src/Data/Stack/Model.antt =====
-- The stack as a list, and that every sequence of calls answers as the list would.
use frosty_os_old.Common.{
  ℕ, zero, suc, ◌-◌, ◌≤◌, ◌≡◌, ◌==◌, List, [], ◌∷◌, length, update, if◌then◌else◌, arith, refl, ap₂,
  ap, ◌∙◌,
}
use frosty_os_old.Data.Stack.{Stack, push, pop, peek, clear}

pub data Op : Type 0 where
  pushes : ℕ → Op
  pops : Op
  peeks : Op
  clears : Op

-- The answer of a call (0 where there is none), and the stack afterwards.
unfoldable pub call : Stack → Op → ℕ × Stack
unfolding push pop peek clear
call s (Op.pushes x) = (0, push s x)
call s Op.pops = pop s
call s Op.peeks = (peek s, s)
call s Op.clears = (0, clear s)

unfoldable pub answers : Stack → List Op → List ℕ
unfolding call
answers s [] = []
answers s (o ∷ os) = (call s o).0 ∷ answers (call s o).1 os

-- The same on a list with its top first, for a capacity.
unfoldable pub model_call : ℕ → List ℕ → Op → ℕ × List ℕ
model_call capacity xs (Op.pushes x) = (0, if length xs == capacity then xs else x ∷ xs)
model_call capacity [] Op.pops = (0, [])
model_call capacity (x ∷ xs) Op.pops = (x, xs)
model_call capacity [] Op.peeks = (0, [])
model_call capacity (x ∷ xs) Op.peeks = (x, x ∷ xs)
model_call capacity xs Op.clears = (0, [])

unfoldable pub model_answers : ℕ → List ℕ → List Op → List ℕ
unfolding model_call
model_answers capacity xs [] = []
model_answers capacity xs (o ∷ os) =
    (model_call capacity xs o).0 ∷ model_answers capacity (model_call capacity xs o).1 os

-- The items, top first.
unfoldable pub items : (ℕ → ℕ) → ℕ → List ℕ
items f zero = []
items f (suc n) = f n ∷ items f n

length-items : (f : ℕ → ℕ) (n : ℕ) → length (items f n) ≡ n
unfolding items
length-items f zero = refl
length-items f (suc n) = omega (arith, length-items f n)

items-update : (f : ℕ → ℕ) (k x n : ℕ) → n ≤ k → items (update f k x) n ≡ items f n
unfolding items
items-update f k x zero h = refl
items-update f k x (suc n) h = ground (arith, items-update f k x n (omega arith))

abbrev pub contents : Stack → List ℕ
contents s = items s.slots s.current_pos

-- One call answers as the list does, and leaves the stack of the list that is left.
pub record Follows (s : Stack) (o : Op) : Type 0 where
  pub same_answer : (call s o).0 ≡ (model_call s.size (contents s) o).0
  pub same_rest : contents (call s o).1 ≡ (model_call s.size (contents s) o).1
  pub same_size : (call s o).1.size ≡ s.size
  pub in_bounds : (call s o).1.current_pos ≤ s.size

call-pushes :
    (f : ℕ → ℕ) (size n x : ℕ)
    → n ≤ size
    → Follows (record { slots = f; size = size; current_pos = n }) (Op.pushes x)
unfolding call model_call items
call-pushes f size n x h = record {
  same_answer = refl;
  same_rest = ground (arith, length-items f n, items-update f n x n);
  same_size = ground arith;
  in_bounds = ground arith;
}

less_one : (n : ℕ) → suc n - 1 ≡ n
less_one n = omega arith

pop-suc :
    (f : ℕ → ℕ) (size n : ℕ)
    → pop (record { slots = f; size = size; current_pos = suc n })
      ≡ (f n, record { slots = f; size = size; current_pos = n })
unfolding pop
pop-suc f size n = ground (arith, less_one n)

call-pops :
    (f : ℕ → ℕ) (size n : ℕ)
    → suc n ≤ size
    → Follows (record { slots = f; size = size; current_pos = suc n }) Op.pops
unfolding call model_call items
call-pops f size n h =
    let e = pop-suc f size n in
    record {
      same_answer = ap (λ (r : ℕ × Stack). r.0) e;
      same_rest = ap (λ (r : ℕ × Stack). contents r.1) e;
      same_size = ap (λ (r : ℕ × Stack). r.1.size) e;
      in_bounds = omega (arith, ap (λ (r : ℕ × Stack). r.1.current_pos) e);
    }

peek-suc :
    (f : ℕ → ℕ) (size n : ℕ) → peek (record { slots = f; size = size; current_pos = suc n }) ≡ f n
unfolding peek
peek-suc f size n = ground (arith, less_one n)

call-Follows :
    (f : ℕ → ℕ) (size n : ℕ) (o : Op)
    → n ≤ size
    → Follows (record { slots = f; size = size; current_pos = n }) o
unfolding call model_call items
call-Follows f size n (Op.pushes x) h = call-pushes f size n x h
call-Follows f size zero Op.pops h = record {
  same_answer = refl;
  same_rest = refl;
  same_size = refl;
  in_bounds = omega arith;
}
call-Follows f size (suc n) Op.pops h = call-pops f size n h
call-Follows f size zero Op.peeks h = record {
  same_answer = refl;
  same_rest = refl;
  same_size = refl;
  in_bounds = omega arith;
}
call-Follows f size (suc n) Op.peeks h = record {
  same_answer = peek-suc f size n;
  same_rest = refl;
  same_size = refl;
  in_bounds = h;
}
call-Follows f size n Op.clears h = record {
  same_answer = refl;
  same_rest = refl;
  same_size = refl;
  in_bounds = omega arith;
}

-- For a stack whose position is within its size, every sequence of calls gets the answers that a list
-- of bounded length gives, with the items of the stack as the list at the start: a push on a full
-- stack is dropped, and a pop or a peek of an empty one is null.
pub answers-model_answers :
    (s : Stack) (os : List Op)
    → s.current_pos ≤ s.size
    → answers s os ≡ model_answers s.size (contents s) os
unfolding answers model_answers
answers-model_answers s [] h = refl
answers-model_answers s (o ∷ os) h =
    let c = call-Follows s.slots s.size s.current_pos o h in
    let t = (call s o).1 in
    ap₂ (λ x xs. x ∷ xs) c.same_answer
      (answers-model_answers t os (omega (arith, c.in_bounds, c.same_size))
        ∙ ap₂ (λ n xs. model_answers n xs os) c.same_size c.same_rest)
