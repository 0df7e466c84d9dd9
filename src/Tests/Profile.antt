-- ===== src/Tests/Profile.antt =====
-- Windows of a profile with two kinds of stacks.
use php_fast_profile.Output.PprofSink.{open_sink, finish}
use php_fast_profile.Output.PprofSink.Laws.{IsProfileWritten, write_all, finish-write_all}
use php_fast_profile.Base.{ℕ, ◌%◌, ◌^◌, List, [], ◌∷◌, All, none, some, ◌≡◌, refl, arith}
use php_fast_profile.Base.Act.{ok}
use php_fast_profile.Base.Map.{lookup, insert, upsert}
use php_fast_profile.Base.Text.{codes}
use php_fast_profile.Zend.Frame.{Frame, qualified_name}
use php_fast_profile.Output.Pprof.{
  Profile, new, add, add_frames, add_frame, count_sample, intern, function_id, location_id,
  take_gzipped,
}
use php_fast_profile.Output.Pprof.Index.{get_from}
use php_fast_profile.Output.Pprof.Resolve.{View}
use php_fast_profile.Output.Pprof.Reads.{ReadAll, all_read, read_next}
use php_fast_profile.Output.Pprof.Counts.{
  add_all, samples_with, count_of, IsCounted, new-IsWellFormed, profile_counts, profile_shows,
}
use php_fast_profile.Output.Pprof.Window.{EndsWindow, take_gzipped_lem}
use php_fast_profile.Tests.Memory.{frame}

abbrev outer : Frame
outer = record { function = codes "g"; class = some (codes "C"); file = none; line = 3 }

abbrev samples : List (List Frame)
samples = (frame ∷ outer ∷ []) ∷ (outer ∷ []) ∷ (frame ∷ outer ∷ []) ∷ []

abbrev outer_view : View
outer_view = record { name = codes "C::g"; file = []; line = 3 }

abbrev frame_view : View
frame_view = record { name = codes "f"; file = codes "/t"; line = 7 }

resolves : ReadAll (add_all samples (new 5)) (1 ∷ 2 ∷ []) (frame_view ∷ outer_view ∷ [])
unfolding add_all new add add_frames add_frame count_sample intern function_id location_id get_from
    qualified_name lookup insert upsert
resolves =
    read_next
      (record {
        location = record { id = 1; function_id = 1; line = 7 };
        function = record { id = 1; name = 1; system_name = 1; filename = 2; start_line = 0 };
        at_location = record {
          front = [];
          back = _;
          whole = refl;
          has_id = refl;
          nonzero = omega arith;
          before = tt;
          behind = (omega arith, tt);
        };
        at_function = record {
          front = [];
          back = _;
          whole = refl;
          has_id = refl;
          nonzero = omega arith;
          before = tt;
          behind = (omega arith, tt);
        };
        line = refl;
        name = refl;
        file = refl;
      })
      (read_next
        (record {
          location = record { id = 2; function_id = 2; line = 3 };
          function = record { id = 2; name = 3; system_name = 3; filename = 0; start_line = 0 };
          at_location = record {
            front = record { id = 1; function_id = 1; line = 7 } ∷ [];
            back = [];
            whole = refl;
            has_id = refl;
            nonzero = omega arith;
            before = (omega arith, tt);
            behind = tt;
          };
          at_function = record {
            front = record { id = 1; name = 1; system_name = 1; filename = 2; start_line = 0 } ∷ [];
            back = [];
            whole = refl;
            has_id = refl;
            nonzero = omega arith;
            before = (omega arith, tt);
            behind = tt;
          };
          line = refl;
          name = refl;
          file = refl;
        })
        all_read)

profile_counts_example :
    count_of (1 ∷ 2 ∷ []) (add_all samples (new 5))
    ≡ samples_with (frame_view ∷ outer_view ∷ []) samples % 2 ^ 64
profile_counts_example =
    profile_counts 5 samples (1 ∷ 2 ∷ []) (frame_view ∷ outer_view ∷ []) resolves

profile_shows_example : All (λ frames. IsCounted samples frames (add_all samples (new 5))) samples
profile_shows_example = profile_shows 5 samples

encode : Profile → List ℕ
encode p = p.time_nanos ∷ p.duration_nanos ∷ []

take_gzipped_lem_example : EndsWindow 8 (new 5) encode (take_gzipped (λ p. ok (encode p)) 8 (new 5))
take_gzipped_lem_example = take_gzipped_lem encode 8 (new 5) (new-IsWellFormed 5)

finish-write_all_example :
    IsProfileWritten 5 8 encode samples
      (record { out = []; operations = 0 })
      (finish
        (λ n. none)
        (λ p. ok (encode p))
        8
        (write_all samples (open_sink 5 (record { out = []; operations = 0 }))))
finish-write_all_example =
    finish-write_all (λ n. none) 5 8 encode samples (record { out = []; operations = 0 })
