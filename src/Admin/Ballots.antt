-- ===== src/Admin/Ballots.antt =====
-- The dict of votes of `participation_report` of admin.py: where no voter has two votes on the
-- proposal, it holds the votes in the order in which the database gave them.
use mathlib.Core.List.{Perm, Permᴰ, append-nil, append_assoc}
use mathlib.Core.Logic.{∥∥₁_elim}
use native.Mathlib.Nat.{ℕ_set}
use electa.Base.{
  ◌≡◌, refl, sym, ap, ◌∙◌, Bool, false, ◌&&◌, String, Option, none, some, List, [], ◌∷◌, ◌++◌,
  length, length-append, arith, ◌==◌, eq_iff, ◌≤◌, Bool-cases, inl, inr, eq_refl,
}
use electa.Base.Filter.{filter, find?, filter-append}
use electa.Query.{OrderBy, OrderByLaws}
use electa.Model.Tables.{Vote}
use electa.Model.Db.{Db, get_vote, is_vote_of, votes_on}
use electa.Votes.Unique.{IsUnique}
use electa.Admin.Participation.{put_vote, votes_by_voter}

module _ {ℓ} {A : Type ℓ} where
  count-Permᴰ :
      (p : A → Bool) {xs ys : List A} → Permᴰ xs ys → length (filter p xs) ≡ length (filter p ys)
  unfolding filter
  count-Permᴰ p Permᴰ.nil = refl
  count-Permᴰ p (Permᴰ.cons e h) = ground (arith, ap p e, count-Permᴰ p h)
  count-Permᴰ p (Permᴰ.swap e f) = ground (arith, ap p e, ap p f)
  count-Permᴰ p (Permᴰ.trans h k) = count-Permᴰ p h ∙ count-Permᴰ p k

  pub count-Perm :
      (p : A → Bool) {xs ys : List A} → Perm xs ys → length (filter p xs) ≡ length (filter p ys)
  count-Perm p h = ∥∥₁_elim h (ℕ_set _ _) (count-Permᴰ p)

  -- A row that alone passes is found in any order.
  find?-Permᴰ :
      (p : A → Bool) {xs ys : List A}
      → Permᴰ xs ys
      → length (filter p xs) ≤ 1
      → find? p xs ≡ find? p ys
  unfolding filter find?
  find?-Permᴰ p Permᴰ.nil one = refl
  find?-Permᴰ p (Permᴰ.cons {a} {b} e h) one = elim (Bool-cases (p a)) [
    | inl k ↦ rw (k, sym (ap p e) ∙ k) (ap some e)
    | inr k ↦ rw (k, sym (ap p e) ∙ k) (find?-Permᴰ p h (ground arith))
  ]
  find?-Permᴰ p (Permᴰ.swap {a} {b} {a'} {b'} e f) one = elim (Bool-cases (p a)) [
    | inl k ↦
        let other : p b ≡ false = ground arith in
        rw (k, sym (ap p f) ∙ other, sym (ap p e) ∙ k) (ap some e)
    | inr k ↦ rw (k, sym (ap p e) ∙ k) (ground (arith, ap p f, f))
  ]
  find?-Permᴰ p (Permᴰ.trans h k) one =
      find?-Permᴰ p h one ∙ find?-Permᴰ p k (ground (arith, count-Permᴰ p h))

  find?-filter : (p q : A → Bool) (xs : List A) → find? q (filter p xs) ≡ find? (λ x. p x && q x) xs
  unfolding filter find?
  find?-filter p q [] = refl
  find?-filter p q (x ∷ xs) = ground (arith, find?-filter p q xs)

  filter-filter :
      (p q : A → Bool) (xs : List A) → filter q (filter p xs) ≡ filter (λ x. p x && q x) xs
  unfolding filter
  filter-filter p q [] = refl
  filter-filter p q (x ∷ xs) = ground (arith, filter-filter p q xs)

  no_match-length : (p : A → Bool) (xs : List A) → find? p xs ≡ none → length (filter p xs) ≡ 0
  unfolding filter find?
  no_match-length p [] h = refl
  no_match-length p (x ∷ xs) h = ground (arith, no_match-length p xs)

module _ {F : Type 0} where
  -- One vote at most in a table with the unique constraint.
  IsUnique-length :
      (proposal_id id : String) (votes : List (Vote F))
      → IsUnique votes
      → length (filter (is_vote_of proposal_id id) votes) ≤ 1
  unfolding filter
  IsUnique-length proposal_id id [] h = omega arith
  IsUnique-length proposal_id id (v ∷ votes) h = ground (
    arith,
    IsUnique-length proposal_id id votes h.1,
    no_match-length (is_vote_of v.proposal_id v.voter_id) votes h.0,
    eq_iff v.proposal_id proposal_id,
    eq_iff v.voter_id id,
  )

  put_vote-new :
      (v : Vote F) (seen : List (Vote F))
      → length (filter (λ w. w.voter_id == v.voter_id) seen) ≡ 0
      → put_vote v seen ≡ seen ++ v ∷ []
  unfolding put_vote filter
  put_vote-new v [] h = refl
  put_vote-new v (w ∷ seen) h = ground (arith, put_vote-new v seen)

  votes_by_voter-append :
      (seen votes : List (Vote F))
      → ((id : String) → length (filter (λ w. w.voter_id == id) (seen ++ votes)) ≤ 1)
      → votes_by_voter seen votes ≡ seen ++ votes
  unfolding votes_by_voter filter
  votes_by_voter-append seen [] one = sym (append-nil seen)
  votes_by_voter-append seen (v ∷ votes) one =
      let earlier = filter-append (λ w. w.voter_id == v.voter_id) seen (v ∷ votes) in
      let counted = length-append (filter (λ w. w.voter_id == v.voter_id) seen) in
      let self = eq_refl v.voter_id in
      let new = put_vote-new v seen (grind (arith, one v.voter_id, earlier, counted, self)) in
      rw new (
        votes_by_voter-append (seen ++ v ∷ []) votes
          (λ id. rw (append_assoc seen (v ∷ []) votes) (one id))
        ∙ append_assoc seen (v ∷ []) votes)

  module _ (order : OrderBy) (laws : OrderByLaws order) (db : Db F) (unique : IsUnique db.votes)
      (proposal_id : String) where
    -- The votes as the database gives them.
    abbrev pub drawn : List (Vote F)
    drawn = order.unordered (Vote F) (votes_on db proposal_id)

    voter-length : (id : String) → length (filter (λ v. v.voter_id == id) drawn) ≤ 1
    voter-length id =
        rw
          (
            count-Perm (λ v. v.voter_id == id)
                (laws.unordered_perm (Vote F) (votes_on db proposal_id)),
            filter-filter (λ (v : Vote F). v.proposal_id == proposal_id) (λ v. v.voter_id == id)
                db.votes,
          )
          (IsUnique-length proposal_id id db.votes unique)

    pub votes_by_voter-drawn : votes_by_voter [] drawn ≡ drawn
    votes_by_voter-drawn = votes_by_voter-append [] drawn voter-length

    -- What an entry reads of the vote of its voter.
    pub read-get_vote :
        {B : Type 0} (set : IsSet B) (read : Option (Vote F) → B) (id : String)
        → read (find? (λ v. v.voter_id == id) (votes_by_voter [] drawn))
          ≡ read (get_vote db proposal_id id)
    read-get_vote set read id =
        ap (λ l. read (find? (λ v. v.voter_id == id) l)) votes_by_voter-drawn
        ∙ ∥∥₁_elim (laws.unordered_perm (Vote F) (votes_on db proposal_id)) (set _ _)
            (λ h. ap read (find?-Permᴰ (λ v. v.voter_id == id) h (voter-length id)))
        ∙ ap read (
            find?-filter (λ (v : Vote F). v.proposal_id == proposal_id) (λ v. v.voter_id == id)
              db.votes)
