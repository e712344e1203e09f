-- ===== src/Store/Buffer.antt =====
-- `std::list<MessageEntry>`, as `handle_fetch` and `handle_receive` of cpp/src/nsb_daemon.cc use it:
-- `std::find_if` followed by a copy and `erase`, and `front` followed by `pop_front`. Both leave the
-- entry blank where there is nothing to take.
use nsb_ci.Prelude.{
  Bool, true, false, List, [], ◌∷◌, ◌++◌, ◌≡◌, refl, ap, ◌⊎◌, inl, inr, arith, if◌then◌else◌, keep,
  All,
}
use nsb_ci.Message.{MessageEntry, blank_entry}

pub record Taken : Type 0 where
  pub entry : MessageEntry
  pub rest : List MessageEntry

unfoldable pub take_match : (MessageEntry → Bool) → List MessageEntry → Taken
take_match p [] = record { entry = blank_entry; rest = [] }
take_match p (e ∷ es) =
    let later = take_match p es in
    if p e
    then record { entry = e; rest = es }
    else record { entry = later.entry; rest = e ∷ later.rest }

unfoldable pub pop_front : List MessageEntry → Taken
pop_front [] = record { entry = blank_entry; rest = [] }
pop_front (e ∷ es) = record { entry = e; rest = es }

-- An entry was taken from between the two parts of the buffer, and nothing before it passes.
pub record Splits (p : MessageEntry → Bool) (buffer : List MessageEntry) (t : Taken) : Type 0 where
  pub before : List MessageEntry
  pub after : List MessageEntry
  pub was : buffer ≡ before ++ t.entry ∷ after
  pub is : t.rest ≡ before ++ after
  pub passes : p t.entry ≡ true
  pub none_before : All (λ e. p e ≡ false) before

abbrev pub Takes : (MessageEntry → Bool) → List MessageEntry → Taken → Type 0
Takes p buffer t =
    Splits p buffer t
    ⊎ (All (λ e. p e ≡ false) buffer × (t.entry ≡ blank_entry) × (t.rest ≡ buffer))

pub take_match-Takes :
    (p : MessageEntry → Bool) (es : List MessageEntry) → Takes p es (take_match p es)
unfolding take_match
take_match-Takes p [] = inr (tt, refl, refl)
take_match-Takes p (e ∷ es) = split (p e) refl (take_match-Takes p es)
  where
    split :
        (b : Bool)
        → p e ≡ b
        → Takes p es (take_match p es)
        → Takes p (e ∷ es) (
            if b
            then record { entry = e; rest = es }
            else record { entry = (take_match p es).entry; rest = e ∷ (take_match p es).rest })
    split true h t =
        inl
          (record { before = []; after = es; was = refl; is = refl; passes = h; none_before = tt })
    split false h (inl s) = inl (record {
      before = e ∷ s.before;
      after = s.after;
      was = ap (λ l. e ∷ l) s.was;
      is = ap (λ l. e ∷ l) s.is;
      passes = s.passes;
      none_before = (h, s.none_before);
    })
    split false h (inr (all, b, r)) = inr ((h, all), b, ap (λ l. e ∷ l) r)

-- The entries that pass, oldest first: what is left of them once the first is taken.
abbrev pub behind : List MessageEntry → List MessageEntry
behind [] = []
behind (e ∷ es) = es

abbrev pub head_or_blank : List MessageEntry → MessageEntry
head_or_blank [] = blank_entry
head_or_blank (e ∷ es) = e

-- `take_match` pops the queue of the entries that pass.
pub take_match-keep :
    (p : MessageEntry → Bool) (es : List MessageEntry)
    → ((take_match p es).entry ≡ head_or_blank (keep p es))
      × (keep p (take_match p es).rest ≡ behind (keep p es))
unfolding take_match keep
take_match-keep p [] = (refl, refl)
take_match-keep p (e ∷ es) = ground (arith, take_match-keep p es)

-- It does not touch a queue whose entries do not pass.
pub take_match-keep_other :
    (p q : MessageEntry → Bool) (es : List MessageEntry)
    → ((e : MessageEntry) → p e ≡ true → q e ≡ false)
    → keep q (take_match p es).rest ≡ keep q es
unfolding take_match keep
take_match-keep_other p q [] h = refl
take_match-keep_other p q (e ∷ es) h = ground (arith, h e, take_match-keep_other p q es h)

-- The first entry that passes is taken from wherever it stands.
pub take_match_at :
    (p : MessageEntry → Bool) (before after : List MessageEntry) (e : MessageEntry)
    → All (λ x. p x ≡ false) before
    → p e ≡ true
    → take_match p (before ++ e ∷ after) ≡ record { entry = e; rest = before ++ after }
unfolding take_match
take_match_at p [] after e none_before hit = ground arith
take_match_at p (x ∷ before) after e none_before hit =
    ground (arith, take_match_at p before after e none_before.1)

pub take_match_none :
    (p : MessageEntry → Bool) (es : List MessageEntry)
    → All (λ x. p x ≡ false) es
    → take_match p es ≡ record { entry = blank_entry; rest = es }
unfolding take_match
take_match_none p [] h = refl
take_match_none p (e ∷ es) h = ground (arith, take_match_none p es h.1)
