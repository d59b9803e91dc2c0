-- ===== src/Tests/Stacks.antt =====
-- kernel/src/Data-structures/Stack.hpp on a stack of two slots.
use frosty_os_old.Common.{◌≡◌, [], ◌∷◌, refl, arith, List}
use frosty_os_old.Data.Stack.{Stack, make}
use frosty_os_old.Data.Stack.Model.{
  Op, answers, model_answers, contents, items, answers-model_answers,
}

-- One of the two slots is in use.
abbrev one_item : Stack
one_item = record { slots = λ i. 7; size = 2; current_pos = 1 }

abbrev calls : List Op
calls = Op.pushes 8 ∷ Op.pushes 9 ∷ Op.pops ∷ Op.peeks ∷ Op.pops ∷ Op.pops ∷ []

answers-one_item : answers one_item calls ≡ 0 ∷ 0 ∷ 8 ∷ 7 ∷ 7 ∷ 0 ∷ []
unfolding answers
answers-one_item = refl

answers-model_answers_example : answers one_item calls ≡ model_answers 2 (contents one_item) calls
answers-model_answers_example = answers-model_answers one_item calls (omega arith)

make_empty : contents (make (λ i. 0) 2) ≡ []
unfolding make items
make_empty = refl
