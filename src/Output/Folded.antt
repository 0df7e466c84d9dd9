-- ===== src/Output/Folded.antt =====
-- src/output/mod.rs, `FoldedSink`: samples counted by their folded stack.
--
-- The order in which `drain` yields the entries of the hash map is the parameter `order`.
pub mod Laws
use php_fast_profile.Base.{ℕ, ◌+◌, ◌%◌, ◌^◌, List, [], ◌∷◌, ◌++◌, map, reverse, nat_eq, list_eq}
use php_fast_profile.Base.Act.{Outcome, ok, Act, pure, ◌>>=◌}
use php_fast_profile.Base.Map.{HashMap, upsert}
use php_fast_profile.Base.Order.{sort_entries}
use php_fast_profile.Base.Text.{Text, codes, join, to_string}
use php_fast_profile.Zend.Frame.{Frame, qualified_name}
use php_fast_profile.Output.Writer.{Device, Writer, write, flush}

pub record FoldedSink : Type 0 where
  pub w : Writer
  pub counts : HashMap Text ℕ

-- `+= 1` on a `u64`.
abbrev pub increment : ℕ → ℕ
increment n = (n + 1) % 2 ^ 64

-- Root first.
unfoldable pub folded_key : List Frame → Text
folded_key frames = join (codes ";") (map qualified_name (reverse frames))

unfoldable pub write_sample : List Frame → FoldedSink → FoldedSink
write_sample [] sink = sink
write_sample (f ∷ frames) sink = record sink {
  counts = upsert (folded_key (f ∷ frames)) 0 increment sink.counts;
}

abbrev pub entry_line : Text → ℕ → Text
entry_line k v = k ++ (codes " " ++ (to_string v ++ codes "\n"))

unfoldable pub write_entries : Device → HashMap Text ℕ → Act Writer (Unit {0})
write_entries device [] = pure tt
write_entries device ((k, v) ∷ entries) = do
  _ ← write device (entry_line k v)
  write_entries device entries

-- The map is drained before anything is written.
unfoldable pub finish : Device → (HashMap Text ℕ → HashMap Text ℕ) → Act FoldedSink (Unit {0})
finish device order sink =
    let action : Act Writer (Unit {0}) = (do
      _ ← write_entries device (sort_entries (order sink.counts))
      flush device) in
    let (r, w') = action sink.w in (r, record { w = w'; counts = [] })
