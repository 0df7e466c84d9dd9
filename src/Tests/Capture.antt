-- ===== src/Tests/Capture.antt =====
-- Captures of the target of Tests/Memory.antt.
use php_fast_profile.Base.{◌+◌, ◌*◌, ◌≤◌, [], ◌∷◌, length, take, drop, ◌≡◌, refl, arith, inr}
use php_fast_profile.Base.Act.{ok}
use php_fast_profile.Base.Map.{lookup}
use php_fast_profile.Base.Bytes.{to_le_bytes}
use php_fast_profile.Base.Text.{codes}
use php_fast_profile.Base.Utf8.{from_utf8_lossy}
use php_fast_profile.Offsets.{layout_8_3}
use php_fast_profile.Zend.Walker.{new_walker, cache_limit}
use php_fast_profile.Zend.Walker.Stored.{
  HoldsFrame, HoldsFunction, HoldsString, callee, named, no_scope, user, points, no_opline,
}
use php_fast_profile.Zend.Walker.Coherence.{IsCoherent}
use php_fast_profile.Target.Capture.{capture_stack}
use php_fast_profile.Target.Capture.Bounds.{IsCapture, capture_stack_bounds}
use php_fast_profile.Target.Capture.Faithful.{bottom, call, capture_stack_lem}
use php_fast_profile.Tests.Memory.{zeros, execute_data, function, remote, target, frame}

new_walker-IsCoherent : IsCoherent remote new_walker
unfolding lookup
new_walker-IsCoherent a s found = ground (arith, found)

holds_name : HoldsString remote 12288 (codes "f")
unfolding to_le_bytes from_utf8_lossy
holds_name = record {
  stored = 1;
  bytes = b'f' ∷ [];
  fits = omega arith;
  header = λ t. refl;
  cut = refl;
  body = λ h t. refl;
  text = refl;
}

holds_file : HoldsString remote 16384 (codes "/t")
unfolding to_le_bytes from_utf8_lossy
holds_file = record {
  stored = 2;
  bytes = codes "/t";
  fits = omega arith;
  header = λ t. refl;
  cut = refl;
  body = λ h t. refl;
  text = refl;
}

holds_function : HoldsFunction remote layout_8_3 8192 0 frame
unfolding to_le_bytes
holds_function = record {
  buf = function;
  ftype = 2;
  name_ptr = 12288;
  scope_ptr = 0;
  size = refl;
  stores = λ t. refl;
  type_at = record {
    front = [];
    back = drop 1 function;
    layout = refl;
    offset = refl;
    fits = omega arith;
  };
  name_at = record {
    front = 2 ∷ zeros 7;
    back = drop 16 function;
    layout = refl;
    offset = refl;
    fits = omega arith;
  };
  scope_at = record {
    front = take 16 function;
    back = drop 24 function;
    layout = refl;
    offset = refl;
    fits = omega arith;
  };
  name = named (omega arith) holds_name;
  class = no_scope refl;
  position =
      user 16384 0 7 refl
        (record {
          front = take 144 function;
          back = drop 152 function;
          layout = refl;
          offset = refl;
          fits = omega arith;
        })
        (record {
          front = take 152 function;
          back = drop 156 function;
          layout = refl;
          offset = refl;
          fits = omega arith;
        })
        (points (omega arith) holds_file) (no_opline refl) (inr (refl, refl));
}

holds_frame : HoldsFrame remote layout_8_3 4096 frame 0
unfolding to_le_bytes
holds_frame = record {
  buf = execute_data;
  opline = 0;
  func = 8192;
  size = refl;
  stores = λ t. refl;
  opline_at = record {
    front = [];
    back = drop 8 execute_data;
    layout = refl;
    offset = refl;
    fits = omega arith;
  };
  func_at = record {
    front = zeros 24;
    back = drop 32 execute_data;
    layout = refl;
    offset = refl;
    fits = omega arith;
  };
  prev_at = record {
    front = take 48 execute_data;
    back = drop 56 execute_data;
    layout = refl;
    offset = refl;
    fits = omega arith;
  };
  callee = callee (omega arith) holds_function;
}

capture_stack_lem_example :
    ((capture_stack target 9 new_walker).0 ≡ ok (take 9 (frame ∷ [])))
    × IsCoherent remote (capture_stack target 9 new_walker).1
unfolding to_le_bytes
capture_stack_lem_example =
    capture_stack_lem target 9 4096 new_walker (omega arith) (λ t. refl)
      (call 0 (omega arith) holds_frame (bottom refl)) new_walker-IsCoherent

capture_stack_bounds_example :
    IsCapture 9 (capture_stack target 9 new_walker).0
    × ((capture_stack target 9 new_walker).1.calls ≤ new_walker.calls + (1 + 10 * 9))
    × (length (capture_stack target 9 new_walker).1.string_cache ≤ cache_limit)
capture_stack_bounds_example =
    capture_stack_bounds target 9 new_walker
      (record { filename = omega arith; line_start = omega arith }) (omega arith)
