-- ===== src/Sampler/Top/Deeds.antt =====
-- What the steps of `run_top` send, record and clear.
use php_fast_profile.Base.{
  ℕ, List, [], ◌∷◌, ◌++◌, All, All-append, Option, Bool, true, false, ◌||◌, ◌≡◌, refl, sym, ap, ◌∙◌,
  if◌then◌else◌,
}
use mathlib.Core.List.{append-nil, append_assoc}
use mathlib.Core.Path.{subst}
use php_fast_profile.Base.Act.{Outcome}
use php_fast_profile.Base.Text.{Text}
use php_fast_profile.Zend.Frame.{Frame}
use php_fast_profile.Tui.Laws.{stacks_of}
use php_fast_profile.Tui.Loop.{drain, Loop, goes, returns, Event}
use php_fast_profile.Tui.Loop.Laws.{resets, IsTable, IsTable-append, IsGoing}
use php_fast_profile.Sampler.Leaf.{leaf_is_any}
use php_fast_profile.Sampler.Run.{is_empty}
use php_fast_profile.Sampler.Worker.{Turn, ended, quiet, sends}
use php_fast_profile.Sampler.Top.{
  TopSystem, TopPhase, Deed, silent, cleared, sent, shown, deed_of, sent_frames, try_recv,
  recv_deed, after_poll, poll_deed,
}

-- The samples that the deeds sent, and those that they recorded, oldest first.
unfoldable pub sent_by : List Deed → List (List Frame)
sent_by [] = []
sent_by (sent frames ∷ deeds) = frames ∷ sent_by deeds
sent_by (silent ∷ deeds) = sent_by deeds
sent_by (cleared ∷ deeds) = sent_by deeds
sent_by (shown now frames ∷ deeds) = sent_by deeds

unfoldable pub shown_by : List Deed → List (ℕ × List Frame)
shown_by [] = []
shown_by (shown now frames ∷ deeds) = (now, frames) ∷ shown_by deeds
shown_by (silent ∷ deeds) = shown_by deeds
shown_by (cleared ∷ deeds) = shown_by deeds
shown_by (sent frames ∷ deeds) = shown_by deeds

-- The samples recorded since the table was last cleared, behind the samples `kept` before.
unfoldable pub kept_by : List (ℕ × List Frame) → List Deed → List (ℕ × List Frame)
kept_by kept [] = kept
kept_by kept (shown now frames ∷ deeds) = kept_by (kept ++ ((now, frames) ∷ [])) deeds
kept_by kept (cleared ∷ deeds) = kept_by [] deeds
kept_by kept (silent ∷ deeds) = kept_by kept deeds
kept_by kept (sent frames ∷ deeds) = kept_by kept deeds

sent_by-append : (a b : List Deed) → sent_by (a ++ b) ≡ sent_by a ++ sent_by b
unfolding sent_by
sent_by-append [] b = refl
sent_by-append (sent frames ∷ a) b = ap (λ l. frames ∷ l) (sent_by-append a b)
sent_by-append (silent ∷ a) b = sent_by-append a b
sent_by-append (cleared ∷ a) b = sent_by-append a b
sent_by-append (shown now frames ∷ a) b = sent_by-append a b

shown_by-append : (a b : List Deed) → shown_by (a ++ b) ≡ shown_by a ++ shown_by b
unfolding shown_by
shown_by-append [] b = refl
shown_by-append (shown now frames ∷ a) b = ap (λ l. (now, frames) ∷ l) (shown_by-append a b)
shown_by-append (silent ∷ a) b = shown_by-append a b
shown_by-append (cleared ∷ a) b = shown_by-append a b
shown_by-append (sent frames ∷ a) b = shown_by-append a b

kept_by-append :
    (kept : List (ℕ × List Frame)) (a b : List Deed)
    → kept_by kept (a ++ b) ≡ kept_by (kept_by kept a) b
unfolding kept_by
kept_by-append kept [] b = refl
kept_by-append kept (shown now frames ∷ a) b = kept_by-append _ a b
kept_by-append kept (cleared ∷ a) b = kept_by-append [] a b
kept_by-append kept (silent ∷ a) b = kept_by-append kept a b
kept_by-append kept (sent frames ∷ a) b = kept_by-append kept a b

-- A sample that a sampler may send.
abbrev pub IsWanted : List Text → List Frame → Type 0
IsWanted drop_leaf frames = (is_empty frames || leaf_is_any frames drop_leaf) ≡ false

stacks_of-append : (a b : List (ℕ × List Frame)) → stacks_of (a ++ b) ≡ stacks_of a ++ stacks_of b
unfolding stacks_of
stacks_of-append [] b = refl
stacks_of-append ((now, frames) ∷ a) b = ap (λ l. frames ∷ l) (stacks_of-append a b)

module _ (drop_leaf : List Text) where
  -- The samples sent are those recorded, and then those that wait; the table is that of those
  -- recorded since the last clearing.
  pub record IsShown (deeds : List Deed) (s : TopSystem) : Type 0 where
    pub queue : sent_by deeds ≡ stacks_of (shown_by deeds) ++ s.channel
    pub table : IsTable (kept_by [] deeds) s.view.agg
    pub wanted : All (IsWanted drop_leaf) (sent_by deeds)

  -- What the deed `d` of a step from `s` to `t` changes.
  pub record Changes (kept : List (ℕ × List Frame)) (d : Deed) (s t : TopSystem) : Type 0 where
    pub queue : s.channel ++ sent_by (d ∷ []) ≡ stacks_of (shown_by (d ∷ [])) ++ t.channel
    pub table : IsTable (kept_by kept (d ∷ [])) t.view.agg
    pub wanted : All (IsWanted drop_leaf) (sent_by (d ∷ []))

  pub IsShown-Changes :
      (deeds : List Deed) (d : Deed) (s t : TopSystem)
      → IsShown deeds s
      → Changes (kept_by [] deeds) d s t
      → IsShown (deeds ++ (d ∷ [])) t
  IsShown-Changes deeds d s t h c = record {
    queue = cc (
      sent_by-append deeds (d ∷ []),
      shown_by-append deeds (d ∷ []),
      stacks_of-append (shown_by deeds) (shown_by (d ∷ [])),
      h.queue,
      c.queue,
      append_assoc (stacks_of (shown_by deeds)) s.channel (sent_by (d ∷ [])),
      append_assoc (stacks_of (shown_by deeds)) (stacks_of (shown_by (d ∷ []))) t.channel,
    );
    table = subst (λ l. IsTable l t.view.agg) (sym (kept_by-append [] deeds (d ∷ []))) c.table;
    wanted =
        subst (λ l. All (IsWanted drop_leaf) l) (sym (sent_by-append deeds (d ∷ [])))
          (All-append (IsWanted drop_leaf) (sent_by deeds) (sent_by (d ∷ [])) h.wanted c.wanted);
  }

  -- A step that sends and records nothing.
  pub Changes-silent :
      (kept : List (ℕ × List Frame)) (s t : TopSystem)
      → t.channel ≡ s.channel
      → t.view ≡ s.view
      → IsTable kept s.view.agg
      → Changes kept silent s t
  unfolding sent_by shown_by kept_by stacks_of
  Changes-silent kept s t c v h = record {
    queue = append-nil s.channel ∙ sym c;
    table = subst (λ v. IsTable kept v.agg) (sym v) h;
    wanted = tt;
  }

  pub Changes-turn :
      (kept : List (ℕ × List Frame)) (turn : Turn (List Frame)) (s t : TopSystem)
      → t.channel ≡ s.channel ++ sent_frames turn
      → t.view ≡ s.view
      → All (IsWanted drop_leaf) (sent_frames turn)
      → IsTable kept s.view.agg
      → Changes kept (deed_of turn) s t
  unfolding sent_by shown_by kept_by stacks_of
  Changes-turn kept ended s t c v w h = Changes-silent kept s t (c ∙ append-nil s.channel) v h
  Changes-turn kept quiet s t c v w h = Changes-silent kept s t (c ∙ append-nil s.channel) v h
  Changes-turn kept (sends frames) s t c v w h = record {
    queue = sym c;
    table = subst (λ v. IsTable kept v.agg) (sym v) h;
    wanted = w;
  }

  pub Changes-recv :
      (kept : List (ℕ × List Frame)) (now : ℕ) (channel : List (List Frame)) (s : TopSystem)
      → s.channel ≡ channel
      → IsTable kept s.view.agg
      → Changes kept (recv_deed now channel) s (try_recv now channel s)
  unfolding try_recv
  Changes-recv kept now [] s e h = Changes-silent kept s _ refl refl h
  Changes-recv kept now (frames ∷ rest) s e h =
      unfold sent_by shown_by kept_by stacks_of in
      record {
        queue = append-nil s.channel ∙ e;
        table = unfold drain in IsTable-append kept ((now, frames) ∷ []) s.view.agg h;
        wanted = tt;
      }

  pub Changes-poll :
      (kept : List (ℕ × List Frame)) (event : Outcome (Option Event)) (loop : Loop) (s : TopSystem)
      → IsGoing (if resets event then [] else kept) loop
      → IsTable kept s.view.agg
      → Changes kept (poll_deed event loop) s (after_poll loop s)
  unfolding after_poll
  Changes-poll kept event (returns r view) s g h = Changes-silent kept s _ refl refl h
  Changes-poll kept event (goes view) s g h = polled (resets event) (unfold IsGoing in g)
    where
      polled :
          (b : Bool)
          → IsTable (if b then [] else kept) view.agg
          → Changes kept
              (if b then cleared else silent)
              s
              (record s { view = view; phase = TopPhase.checking })
      polled true g =
          unfold sent_by shown_by kept_by stacks_of in
          record { queue = append-nil s.channel; table = g; wanted = tt }
      polled false g =
          unfold sent_by shown_by kept_by stacks_of in
          record { queue = append-nil s.channel; table = g; wanted = tt }
