-- ===== src/Scheduler/Closes.antt =====
-- That the loop of scheduler.py closes what has run out, whatever fails on the way.
use electa.Base.{
  ℕ, ◌≤◌, ◌≡◌, refl, ap, ◌∙◌, true, false, ◌&&◌, ◌⊎◌, inl, inr, String, Option, some, List, [], ◌∷◌,
  ◌++◌, arith, eq_iff, eq_refl, ◌==◌, Option-cases, Bool-cases, if◌then◌else◌,
}
use electa.Base.Filter.{filter}
use electa.Float.{Float}
use electa.Settings.{Settings}
use electa.Handler.{App}
use electa.Model.Enums.{is_open, opened, closed}
use electa.Model.Tables.{Proposal}
use electa.Model.Db.{get_proposal_row}
use electa.Proposals.{CloseContext}
use electa.Scheduler.{is_expired, close_proposal}
use electa.Scheduler.Rows.{HasUniqueIds, has_id, has_id-filter, close_proposal-row, closed_row}
use electa.Scheduler.Unique.{close_proposal-HasUniqueIds}
use electa.Scheduler.Loop.{Turn, try_all, take_turn, loop}

module _ {F : Type 0} where
  -- A row that is found and closed.
  abbrev pub IsClosedRow : Option (Proposal F) → Type 0
  IsClosedRow o = (q : Proposal F) × (o ≡ some q) × (q.status ≡ closed)

  -- A row is as before, or closed.
  abbrev Stays : Option (Proposal F) → Option (Proposal F) → Type 0
  Stays before after = (after ≡ before) ⊎ IsClosedRow after

  Stays-trans : (a b c : Option (Proposal F)) → Stays a b → Stays b c → Stays a c
  Stays-trans a b c (inl e) (inl f) = inl (f ∙ e)
  Stays-trans a b c (inr (q, e, k)) (inl f) = inr (q, f ∙ e, k)
  Stays-trans a b c h (inr k) = inr k

  IsClosedRow-Stays : (a b : Option (Proposal F)) → IsClosedRow a → Stays a b → IsClosedRow b
  IsClosedRow-Stays a b (q, e, k) (inl f) = (q, f ∙ e, k)
  IsClosedRow-Stays a b h (inr k) = k

module _ {F : Type 0} ⦃fl : Float F⦄ (settings : Settings F) where
  close_proposal-Stays :
      (ctx : CloseContext) (i j : String) (app : App F)
      → Stays
          (get_proposal_row app.db j)
          (get_proposal_row (close_proposal settings ctx i app).db j)
  close_proposal-Stays ctx i j app =
      let row = close_proposal-row settings ctx i j app in
      elim (Option-cases (get_proposal_row app.db j)) [
        | inl e ↦ inl (row ∙ rw e refl)
        | inr (p, e) ↦ elim (Bool-cases ((i == j) && is_open p.status)) [
          | inl k ↦ inr (closed_row settings ctx.result_time app.db p, row ∙ rw (e, k) refl, refl)
          | inr k ↦ inl (row ∙ rw (e, k) refl)
        ]
      ]

  close_proposal-IsClosedRow :
      (ctx : CloseContext) (j : String) (app : App F) (p : Proposal F)
      → get_proposal_row app.db j ≡ some p
      → p.status ≡ opened
      → IsClosedRow (get_proposal_row (close_proposal settings ctx j app).db j)
  close_proposal-IsClosedRow ctx j app p e is_opened = (
    closed_row settings ctx.result_time app.db p,
    close_proposal-row settings ctx j j app ∙ rw (e, eq_refl j, is_opened) refl,
    refl,
  )

  -- One step of a turn, with its failure.
  abbrev step : Turn → Proposal F → App F → App F
  step turn p app =
      if turn.fails p.id then app else close_proposal settings (turn.contexts p.id) p.id app

  step-Stays :
      (turn : Turn) (p : Proposal F) (j : String) (app : App F)
      → Stays (get_proposal_row app.db j) (get_proposal_row (step turn p app).db j)
  step-Stays turn p j app = elim (Bool-cases (turn.fails p.id)) [
    | inl e ↦ rw e (inl refl)
    | inr e ↦ rw e (close_proposal-Stays (turn.contexts p.id) p.id j app)
  ]

  try_all-Stays :
      (turn : Turn) (expired : List (Proposal F)) (j : String) (app : App F)
      → Stays
          (get_proposal_row app.db j)
          (get_proposal_row (try_all settings turn expired app).db j)
  unfolding try_all
  try_all-Stays turn [] j app = inl refl
  try_all-Stays turn (p ∷ expired) j app =
      Stays-trans _ (get_proposal_row (step turn p app).db j) _ (step-Stays turn p j app)
        (try_all-Stays turn expired j (step turn p app))

  try_all-IsClosedRow :
      (turn : Turn) (expired : List (Proposal F)) (j : String) (app : App F) (p : Proposal F)
      → has_id j expired ≡ true
      → turn.fails j ≡ false
      → get_proposal_row app.db j ≡ some p
      → p.status ≡ opened
      → IsClosedRow (get_proposal_row (try_all settings turn expired app).db j)
  unfolding try_all has_id
  try_all-IsClosedRow turn [] j app p listed works found is_opened = ground arith
  try_all-IsClosedRow turn (q ∷ expired) j app p listed works found is_opened =
      let next = step turn q app in
      let rest = try_all-Stays turn expired j next in
      elim (Bool-cases (q.id == j)) [
        | inl e ↦
            let same : q.id ≡ j = (eq_iff q.id j).0 e in
            let now_closed : IsClosedRow (get_proposal_row next.db j) =
              rw (ap turn.fails same ∙ works, same)
                (close_proposal-IsClosedRow (turn.contexts j) j app p found is_opened) in
            IsClosedRow-Stays _ _ now_closed rest
        | inr e ↦ elim (step-Stays turn q j app) [
          | inl kept ↦
              try_all-IsClosedRow turn expired j next p (ground arith) works (kept ∙ found)
                is_opened
          | inr now_closed ↦ IsClosedRow-Stays _ _ now_closed rest
        ]
      ]

  try_all-HasUniqueIds :
      (turn : Turn) (expired : List (Proposal F)) (app : App F)
      → HasUniqueIds app.db.proposals
      → HasUniqueIds (try_all settings turn expired app).db.proposals
  unfolding try_all
  try_all-HasUniqueIds turn [] app u = u
  try_all-HasUniqueIds turn (p ∷ expired) app u =
      try_all-HasUniqueIds turn expired (step turn p app) (elim (Bool-cases (turn.fails p.id)) [
        | inl e ↦ rw e u
        | inr e ↦ rw e (close_proposal-HasUniqueIds settings (turn.contexts p.id) p.id app u)
      ])

  take_turn-Stays :
      (turn : Turn) (j : String) (app : App F)
      → Stays (get_proposal_row app.db j) (get_proposal_row (take_turn settings turn app).db j)
  unfolding take_turn
  take_turn-Stays turn j app = elim (Bool-cases turn.reads) [
    | inl e ↦ rw e (try_all-Stays turn (filter (is_expired turn.now) app.db.proposals) j app)
    | inr e ↦ rw e (inl refl)
  ]

  take_turn-HasUniqueIds :
      (turn : Turn) (app : App F)
      → HasUniqueIds app.db.proposals
      → HasUniqueIds (take_turn settings turn app).db.proposals
  unfolding take_turn
  take_turn-HasUniqueIds turn app u = elim (Bool-cases turn.reads) [
    | inl e ↦ rw e (try_all-HasUniqueIds turn (filter (is_expired turn.now) app.db.proposals) app u)
    | inr e ↦ rw e u
  ]

  take_turn-IsClosedRow :
      (turn : Turn) (j : String) (app : App F) (p : Proposal F) (deadline : ℕ)
      → HasUniqueIds app.db.proposals
      → get_proposal_row app.db j ≡ some p
      → p.status ≡ opened
      → p.closes_at ≡ some deadline
      → deadline ≤ turn.now
      → turn.reads ≡ true
      → turn.fails j ≡ false
      → IsClosedRow (get_proposal_row (take_turn settings turn app).db j)
  unfolding take_turn
  take_turn-IsClosedRow turn j app p deadline u found is_opened due late reads works =
      let expired : is_expired turn.now p ≡ true = rw (is_opened, due) (ground arith) in
      let listed = has_id-filter turn.now j app.db.proposals p u found ∙ expired in
      rw reads (
        try_all-IsClosedRow turn (filter (is_expired turn.now) app.db.proposals) j app p listed
          works found is_opened)

  loop-Stays :
      (turns : List Turn) (j : String) (app : App F)
      → Stays (get_proposal_row app.db j) (get_proposal_row (loop settings turns app).db j)
  unfolding loop
  loop-Stays [] j app = inl refl
  loop-Stays (turn ∷ turns) j app =
      Stays-trans _ (get_proposal_row (take_turn settings turn app).db j) _
        (take_turn-Stays turn j app) (loop-Stays turns j (take_turn settings turn app))

  -- The scheduler closes every open proposal in the end: once the loop has made a turn at or after
  -- the deadline whose query succeeds and in which the closing of this proposal does not raise, the
  -- proposal is closed, whatever failed in the turns before and after and in the closing of others.
  -- The ids of the proposals are unique, and no other task changes the proposals in between.
  pub loop-IsClosedRow :
      (earlier later : List Turn) (turn : Turn) (j : String) (app : App F) (p : Proposal F)
      (deadline : ℕ)
      → HasUniqueIds app.db.proposals
      → get_proposal_row app.db j ≡ some p
      → p.status ≡ opened
      → p.closes_at ≡ some deadline
      → deadline ≤ turn.now
      → turn.reads ≡ true
      → turn.fails j ≡ false
      → IsClosedRow (get_proposal_row (loop settings (earlier ++ turn ∷ later) app).db j)
  unfolding loop
  loop-IsClosedRow [] later turn j app p deadline u found is_opened due late reads works =
      IsClosedRow-Stays _ _
        (take_turn-IsClosedRow turn j app p deadline u found is_opened due late reads works)
        (loop-Stays later j (take_turn settings turn app))
  loop-IsClosedRow (first ∷ earlier) later turn j app p deadline u found is_opened due late reads
        works =
      let next = take_turn settings first app in
      elim (take_turn-Stays first j app) [
        | inl kept ↦
            loop-IsClosedRow earlier later turn j next p deadline
              (take_turn-HasUniqueIds first app u) (kept ∙ found) is_opened due late reads works
        | inr now_closed ↦
            IsClosedRow-Stays _ _ now_closed (loop-Stays (earlier ++ turn ∷ later) j next)
      ]
