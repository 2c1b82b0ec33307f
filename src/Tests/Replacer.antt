-- ===== src/Tests/Replacer.antt =====
-- The replacer of lru_replacer.cpp at concrete inputs.
use atangyldb.Base.{◌≡◌, refl, none, some, [], ◌∷◌, if◌then◌else◌, ◌==◌, length}
use atangyldb.LruReplacer.{LruReplacer, new_replacer, victim, pin, unpin}
use atangyldb.LruReplacer.Nodes.{frames, remove, last, drop_last}
use atangyldb.LruReplacer.Refine.{
  IsValid, view, unpin_list, new_replacer-IsValid, pin-Refines, victim-Refines, unpin-Refines,
}

-- Frames 3 and 4 in a replacer with room for two.
abbrev two_frames : LruReplacer
two_frames = unpin (unpin (new_replacer 2) 3) 4

two_frames-IsValid : IsValid two_frames
two_frames-IsValid = (unpin-Refines _ 4 (unpin-Refines _ 3 (new_replacer-IsValid 2)).0).0

-- A third frame pushes out the oldest, and the next victim is the older of the two left.
third : view (unpin two_frames 5) ≡ 5 ∷ 4 ∷ []
unfolding unpin frames new_replacer
third = refl

oldest : (victim (unpin two_frames 5)).0 ≡ some 4
unfolding unpin victim new_replacer
oldest = refl

unpin-Refines_example :
    IsValid (unpin two_frames 5) × (view (unpin two_frames 5) ≡ unpin_list 2 5 (view two_frames))
unfolding unpin new_replacer
unpin-Refines_example = unpin-Refines two_frames 5 two_frames-IsValid

pin-Refines_test :
    IsValid (pin two_frames 3) × (view (pin two_frames 3) ≡ remove 3 (view two_frames))
pin-Refines_test = pin-Refines two_frames 3 two_frames-IsValid

victim-Refines_example :
    IsValid (victim two_frames).1
    × ((victim two_frames).0
        ≡ (if length (view two_frames) == 0 then none else some (last (view two_frames))))
    × (view (victim two_frames).1 ≡ drop_last (view two_frames))
victim-Refines_example = victim-Refines two_frames two_frames-IsValid
