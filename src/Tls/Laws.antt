-- ===== src/Tls/Laws.antt =====
-- The executor globals of a thread, from the memory and the registers that lead to them.
use php_fast_profile.Base.{
  suc, [], ◌∷◌, leb, ap, ◌∙◌, none, ℕ, ◌+◌, ◌^◌, ◌<◌, List, Option, some, Bool, true, false, length,
  ◌≡◌, refl, ◌≢◌, arith, ◌==◌, if◌then◌else◌,
}
use php_fast_profile.Base.Act.{Outcome, err, attach_failed, ok}
use php_fast_profile.Base.Bytes.{to_le_bytes, add64, sign_extend32}
use php_fast_profile.Base.Gives.{Gives, Gives-pure, Gives-lift, Gives-false, Gives-bind}
use php_fast_profile.Base.Text.{Text}
use php_fast_profile.Remote.{Remote}
use php_fast_profile.Symbols.{x86_64}
use php_fast_profile.Zend.Walker.Stored.{Stores}
use php_fast_profile.Zend.Walker.Regions.{Always, always, read-Stores, read_u64-Stores}
use php_fast_profile.Tls.{resolve_zts_executor_globals}
use php_fast_profile.Tls.Offset.{decode_tcb_offset}
use php_fast_profile.Tls.Offset.Laws.{mov_accessor, decode-mov_accessor}
use php_fast_profile.Tls.Task.{
  Kernel, Waited, attach, poll, patience, stopped, round, wait_loop, finish_task,
  with_attached_task, fs_base_of, pick_task, read_tls_base_register,
}

-- A thread-safe target on x86_64: the accessor's code, a task that stops at once with its thread
-- pointer, the slot of the cache behind that, and the offset of the globals in the cache.
pub record HoldsCache (kernel : Kernel) (rem : Remote) (tid code var base cache off : ℕ)
    : Type 0 where
  pub landing_pad : Bool
  pub imm : ℕ
  pub rest : List ℕ
  pub imm_fits : imm < 2 ^ 32
  pub code_size : length (mov_accessor landing_pad imm rest) ≡ 24
  pub accessor : Stores rem code (mov_accessor landing_pad imm rest)
  pub attaches : kernel.attaches tid ≡ true
  pub stops : kernel.waitpid tid 0 ≡ stopped
  pub register : kernel.fs_base tid ≡ some base
  pub slot : Stores rem (add64 base (sign_extend32 imm)) (to_le_bytes 8 cache)
  pub cache_fits : cache < 2 ^ 64
  pub cache_made : cache ≢ 0
  pub offset : Stores rem var (to_le_bytes 8 off)
  pub offset_fits : off < 2 ^ 64

wait_stopped :
    (kernel : Kernel) (tid deadline fuel k : ℕ)
    → kernel.waitpid tid k ≡ stopped
    → wait_loop kernel tid deadline (suc fuel) k ≡ (poll ∷ [], none)
unfolding wait_loop
wait_stopped kernel tid deadline fuel k e =
    ap
      (λ s.
        round s (leb deadline (kernel.now (k + 1))) (wait_loop kernel tid deadline fuel (k + 1)))
      e
    ∙ (unfold round in refl)

finished :
    (result : Outcome ℕ) (b : Bool) (w : Waited)
    → b ≡ true
    → w ≡ (poll ∷ [], none)
    → (if b then finish_task result w else (err attach_failed, attach ∷ [])).0 ≡ result
unfolding finish_task
finished result b w e h = ground (arith, e, h)

register_of :
    (kernel : Kernel) (tid base : ℕ)
    → kernel.attaches tid ≡ true
    → kernel.waitpid tid 0 ≡ stopped
    → kernel.fs_base tid ≡ some base
    → (read_tls_base_register x86_64 kernel tid).0 ≡ ok base
unfolding read_tls_base_register with_attached_task
register_of kernel tid base a s r =
    finished (fs_base_of (kernel.fs_base tid)) (kernel.attaches tid) _ a
      (wait_stopped kernel tid (kernel.now 0 + patience) 1000 0 s)
    ∙ ap (λ o. fs_base_of o) r
    ∙ (unfold fs_base_of in refl)

module _ (kernel : Kernel) (rem : Remote) (tid code var base cache off : ℕ)
    (h : HoldsCache kernel rem tid code var base cache off) where
  decode-Gives : Gives Always (decode_tcb_offset x86_64 rem code) (sign_extend32 h.imm)
  unfolding decode_tcb_offset
  decode-Gives =
      Gives-bind _ _ (mov_accessor h.landing_pad h.imm h.rest) _
        (always _ _ (λ t. read-Stores rem code 24 t h.code_size (omega arith) h.accessor))
        (Gives-lift _ _ (decode-mov_accessor h.landing_pad h.imm h.rest h.imm_fits))

  null_test : (cache == 0) ≡ false
  null_test = ground (arith, h.cache_made)

  globals-Gives :
      (pid : ℕ) (entries : List (Option Text))
      → pick_task pid (some entries) ≡ ok tid
      → Gives Always
          (resolve_zts_executor_globals x86_64 kernel (some entries) rem pid code var)
          (add64 cache off)
  unfolding resolve_zts_executor_globals
  globals-Gives pid entries picked = Gives-bind _ _ (sign_extend32 h.imm) _ decode-Gives (
      Gives-bind _ _ tid _ (Gives-lift _ _ picked) (
        Gives-bind _ _ base _
          (Gives-lift _ _ (register_of kernel tid base h.attaches h.stops h.register))
          (Gives-bind _ _ cache _ (always _ _ (λ t. read_u64-Stores rem _ t h.cache_fits h.slot)) (
            Gives-false (cache == 0) _ _ null_test (
              Gives-bind _ _ off _
                (always _ _ (λ t. read_u64-Stores rem var t h.offset_fits h.offset))
                (Gives-pure (add64 cache off)))))))

-- On x86_64, if the task that is picked stops at once, and the accessor's code, the slot at the
-- task's thread pointer plus the accessor's immediate, and the variable of the offset are in memory,
-- the executor globals are at the cache that the slot points to, plus that offset.
pub resolve_zts_lem :
    (kernel : Kernel) (rem : Remote) (pid tid code var base cache off t : ℕ)
    (entries : List (Option Text))
    → HoldsCache kernel rem tid code var base cache off
    → pick_task pid (some entries) ≡ ok tid
    → (resolve_zts_executor_globals x86_64 kernel (some entries) rem pid code var t).0
      ≡ ok (add64 cache off)
resolve_zts_lem kernel rem pid tid code var base cache off t entries h picked =
    ((globals-Gives kernel rem tid code var base cache off h pid entries picked).at t tt).0
