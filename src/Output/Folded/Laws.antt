-- ===== src/Output/Folded/Laws.antt =====
-- What `FoldedSink` counts and writes.
use php_fast_profile.Base.{
  ℕ, ◌+◌, ◌%◌, ◌^◌, List, [], ◌∷◌, ◌++◌, ◌≡◌, ◌≢◌, refl, ◌∙◌, arith, if◌then◌else◌, eqb, nat_eq,
  list_eq, list_beq_iff,
}
use php_fast_profile.Base.Map.{HashMap, lookup, value_or, lookup-upsert, IsMap, IsMap-upsert}
use php_fast_profile.Base.Order.{sort_entries}
use php_fast_profile.Base.Sorted.{SameLookups, sort_entries-eq}
use php_fast_profile.Base.Text.{Text}
use php_fast_profile.Zend.Frame.{Frame}
use php_fast_profile.Output.Writer.{Device}
use php_fast_profile.Base.Act.{panic}
use php_fast_profile.Output.Writer.Laws.{
  Appends, Writes, pure-Writes, write-Writes, bind-Writes, flush-Writes, Appends-ne-panic,
}
use php_fast_profile.Output.Folded.{
  FoldedSink, folded_key, write_sample, entry_line, write_entries, finish,
}

-- A sink that was given samples, oldest first.
pub write_all : List (List Frame) → FoldedSink → FoldedSink
write_all [] sink = sink
write_all (frames ∷ samples) sink = write_all samples (write_sample frames sink)

-- How many of the samples have a folded stack; an empty sample has none.
pub samples_of : Text → List (List Frame) → ℕ
samples_of k [] = 0
samples_of k ([] ∷ samples) = samples_of k samples
samples_of k ((f ∷ frames) ∷ samples) =
    let later = samples_of k samples in if eqb (folded_key (f ∷ frames)) k then later + 1 else later

abbrev pub count_of : Text → FoldedSink → ℕ
count_of k sink = value_or 0 (lookup k sink.counts)

write_sample-count :
    (k : Text) (frames : List Frame) (samples : List (List Frame)) (sink : FoldedSink)
    → (count_of k (write_sample frames sink) + samples_of k samples) % 2 ^ 64
      ≡ (count_of k sink + samples_of k (frames ∷ samples)) % 2 ^ 64
unfolding write_sample samples_of
write_sample-count k [] samples sink = refl
write_sample-count k (f ∷ frames) samples sink = ground (
  arith,
  lookup-upsert (folded_key (f ∷ frames)) k 0 (λ n. (n + 1) % 2 ^ 64) sink.counts,
  list_beq_iff (folded_key (f ∷ frames)) k,
)

-- After any samples, the count of every folded stack has grown by the number of samples that have
-- it, on a 64-bit counter.
pub count_of-write_all :
    (k : Text) (samples : List (List Frame)) (sink : FoldedSink)
    → count_of k (write_all samples sink) % 2 ^ 64
      ≡ (count_of k sink + samples_of k samples) % 2 ^ 64
unfolding write_all
count_of-write_all k [] sink = unfold samples_of in omega arith
count_of-write_all k (frames ∷ samples) sink =
    count_of-write_all k samples (write_sample frames sink)
    ∙ write_sample-count k frames samples sink

write_sample-IsMap :
    (frames : List Frame) (sink : FoldedSink)
    → IsMap sink.counts
    → IsMap (write_sample frames sink).counts
unfolding write_sample
write_sample-IsMap [] sink h = h
write_sample-IsMap (f ∷ frames) sink h = IsMap-upsert _ 0 _ sink.counts h

pub write_all-IsMap :
    (samples : List (List Frame)) (sink : FoldedSink)
    → IsMap sink.counts
    → IsMap (write_all samples sink).counts
unfolding write_all
write_all-IsMap [] sink h = h
write_all-IsMap (frames ∷ samples) sink h =
    write_all-IsMap samples (write_sample frames sink) (write_sample-IsMap frames sink h)

pub entries_text : HashMap Text ℕ → Text
entries_text [] = []
entries_text ((k, v) ∷ entries) = entry_line k v ++ entries_text entries

write_entries-Writes :
    (device : Device) (entries : HashMap Text ℕ)
    → Writes (entries_text entries) (write_entries device entries)
unfolding write_entries entries_text
write_entries-Writes device [] = pure-Writes
write_entries-Writes device ((k, v) ∷ entries) =
    bind-Writes _ _ _ _ (write-Writes device _) (write_entries-Writes device entries)

-- An order of `drain`: the same entries, one for each key.
pub record IsOrder (order : HashMap Text ℕ → HashMap Text ℕ) : Type 0 where
  pub map : (m : HashMap Text ℕ) → IsMap m → IsMap (order m)
  pub same : (m : HashMap Text ℕ) → IsMap m → SameLookups (order m) m

-- In whatever order the hash map yields its entries, and whatever the device does, `finish` appends
-- the lines of the entries sorted by their folded stack, or, if it fails, a front part of them; it
-- does not panic, and leaves no counts.
pub finish-Appends :
    (device : Device) (order : HashMap Text ℕ → HashMap Text ℕ) (sink : FoldedSink)
    → IsOrder order
    → IsMap sink.counts
    → Appends
        (entries_text (sort_entries sink.counts) ++ [])
        (finish device order sink).0
        sink.w
        (finish device order sink).1.w
      × ((finish device order sink).1.counts ≡ [])
unfolding finish
finish-Appends device order sink any h = (
  rw
      (← sort_entries-eq (order sink.counts) sink.counts (any.map sink.counts h) h
        (any.same sink.counts h))
      ((bind-Writes _ _ _ _ (write_entries-Writes device (sort_entries (order sink.counts)))
          (flush-Writes device)).at
        sink.w),
  refl,
)

pub finish-ne-panic :
    (device : Device) (order : HashMap Text ℕ → HashMap Text ℕ) (sink : FoldedSink)
    → (finish device order sink).0 ≢ panic
unfolding finish
finish-ne-panic device order sink = Appends-ne-panic _ _ _ _ (
    (bind-Writes _ _ _ _ (write_entries-Writes device (sort_entries (order sink.counts)))
        (flush-Writes device)).at
      sink.w)
