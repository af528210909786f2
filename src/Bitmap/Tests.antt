-- ===== src/Bitmap/Tests.antt =====
-- Runs of the bitmap on small inputs, and its theorems at a bitmap of ten bits.
use operating_systems_lab.Base.{
  ◌≡◌, refl, true, false, [], ◌∷◌, arith, ok, err, fault, enospc, enomem,
}
use operating_systems_lab.Bitmap.{Bitmap, fill_new, create, alloc, mark, unmark, nr_allocated}
use operating_systems_lab.Bitmap.Valid.{IsValid}
use operating_systems_lab.Bitmap.Alloc.{Allocated, alloc-Allocated}
use operating_systems_lab.Bitmap.Mark.{Gives, mark-Gives, unmark-Gives}
use operating_systems_lab.Bitmap.Create.{Created, create-Created}

-- Ten clear bits in two bytes, and the same with bits 0 and 1 in use.
abbrev ten : Bitmap
ten = record { nbits = 10; v = 0 ∷ 252 ∷ [] }

abbrev ten_one : Bitmap
ten_one = record { nbits = 10; v = 1 ∷ 252 ∷ [] }

abbrev ten_two : Bitmap
ten_two = record { nbits = 10; v = 3 ∷ 252 ∷ [] }

create_runs : create true true 10 ≡ ok ten
unfolding create fill_new
create_runs = refl

create_no_memory : create true false 10 ≡ err enomem
unfolding create
create_no_memory = refl

alloc_runs : alloc ten ≡ ok (0, ten_one)
unfolding alloc
alloc_runs = refl

alloc_full : alloc (record { nbits = 8; v = 255 ∷ [] }) ≡ err enospc
unfolding alloc
alloc_full = refl

mark_runs : mark ten_one 1 ≡ ok ten_two
unfolding mark
mark_runs = refl

unmark_runs : unmark ten_two 1 ≡ ok ten_one
unfolding unmark
unmark_runs = refl

mark_twice : mark ten_two 1 ≡ fault
unfolding mark
mark_twice = refl

count_runs : nr_allocated ten_two ≡ 2
unfolding nr_allocated
count_runs = refl

made_ten : Created 10 (create true true 10)
made_ten = create-Created 10 (omega arith)

ten-IsValid : IsValid ten
unfolding create fill_new
ten-IsValid = made_ten.1

alloc-Allocated_example : Allocated ten (alloc ten)
alloc-Allocated_example = alloc-Allocated ten-IsValid

ten_one-IsValid : IsValid ten_one
unfolding alloc
ten_one-IsValid = alloc-Allocated_example.5

marks_one : Gives true ten_one 1 (mark ten_one 1)
marks_one = mark-Gives ten_one-IsValid 1

ten_two-IsValid : IsValid ten_two
unfolding mark
ten_two-IsValid = marks_one.4

unmarks_one : Gives false ten_two 1 (unmark ten_two 1)
unmarks_one = unmark-Gives ten_two-IsValid 1
