-- ===== src/Tests/Outputs.antt =====
-- The sinks on a device that fails at its third operation, a dropped leaf, and a layout.
use php_fast_profile.Base.{
  ℕ, ◌+◌, ◌%◌, ◌^◌, [], ◌∷◌, ◌++◌, none, some, false, any, eqb, ◌==◌, if◌then◌else◌, list_eq,
  nat_eq, ◌≡◌, refl,
}
use php_fast_profile.Base.Map.{HashMap, lookup, IsMap}
use php_fast_profile.Base.Order.{sort_entries}
use php_fast_profile.Base.Text.{Text, codes, split_once}
use php_fast_profile.Zend.Frame.{qualified_name}
use php_fast_profile.Offsets.{pick, base_layout, layout_8_3}
use php_fast_profile.Sampler.Leaf.{leaf_is_any, leaf_is_any_lem}
use php_fast_profile.Output.Writer.{Device, Writer}
use php_fast_profile.Output.Writer.Laws.{Appends}
use php_fast_profile.Output.Stacks
use php_fast_profile.Output.Stacks.{SampleMeta}
use php_fast_profile.Output.Stacks.Laws.{sample_text, write_sample-Appends}
use php_fast_profile.Output.Folded.{FoldedSink, finish}
use php_fast_profile.Output.Folded.Laws.{
  write_all, samples_of, count_of, count_of-write_all, entries_text, IsOrder, finish-Appends,
}
use php_fast_profile.Tests.Memory.{frame}

abbrev device : Device
device operations = if operations == 2 then some 1 else none

abbrev writer : Writer
writer = record { out = []; operations = 0 }

abbrev meta : SampleMeta
meta = record { request_uri = some (codes "/a"); request_method = none }

write_sample-Appends_example :
    Appends
      (sample_text (frame ∷ frame ∷ []) meta)
      (Stacks.write_sample device (frame ∷ frame ∷ []) meta writer).0
      writer
      (Stacks.write_sample device (frame ∷ frame ∷ []) meta writer).1
write_sample-Appends_example = write_sample-Appends device (frame ∷ frame ∷ []) meta writer

abbrev sink : FoldedSink
sink = record { w = writer; counts = (codes "b", 2) ∷ (codes "a;b", 1) ∷ [] }

abbrev same_order : HashMap Text ℕ → HashMap Text ℕ
same_order m = m

same_order-IsOrder : IsOrder same_order
same_order-IsOrder = record { map = λ m h. h; same = λ m h k. refl }

sink-IsMap : IsMap sink.counts
unfolding lookup
sink-IsMap = (refl, (refl, tt))

finish-Appends_example :
    Appends
      (entries_text (sort_entries sink.counts) ++ [])
      (finish device same_order sink).0
      sink.w
      (finish device same_order sink).1.w
    × ((finish device same_order sink).1.counts ≡ [])
finish-Appends_example = finish-Appends device same_order sink same_order-IsOrder sink-IsMap

count_of-write_all_example :
    count_of (codes "f") (write_all ((frame ∷ []) ∷ [] ∷ []) sink) % 2 ^ 64
    ≡ (count_of (codes "f") sink + samples_of (codes "f") ((frame ∷ []) ∷ [] ∷ [])) % 2 ^ 64
count_of-write_all_example = count_of-write_all (codes "f") ((frame ∷ []) ∷ [] ∷ []) sink

frame-plain : split_once (codes "f") (codes "::") ≡ none
unfolding split_once
frame-plain = refl

leaf_is_any_lem_example :
    (leaf_is_any [] (codes "g" ∷ codes "f" ∷ []) ≡ false)
    × (leaf_is_any (frame ∷ []) (codes "g" ∷ codes "f" ∷ [])
        ≡ any (λ name. eqb (qualified_name frame) name) (codes "g" ∷ codes "f" ∷ []))
leaf_is_any_lem_example = leaf_is_any_lem frame [] (codes "g" ∷ codes "f" ∷ []) frame-plain

picked : pick none none (codes "8.3.1") ≡ some layout_8_3
unfolding pick base_layout
picked = refl
