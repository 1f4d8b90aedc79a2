-- ===== src/Normalize/Sequence.antt =====
-- `Sequencer.Assign` of internal/normalize/normalize.go.
use real_time_market_data_pi.Base.{
  ℕ, ◌+◌, ◌%◌, ◌<◌, ◌≡◌, refl, ap, ap₂, ◌∙◌, inl, inr, Bool-cases, none, some, List, [], ◌∷◌,
  if◌then◌else◌, length, same, list_eq, nat_eq, pair_eq, pair_beq_iff, arith,
}
use real_time_market_data_pi.Base.Assoc.{insert, lookup-insert}
use real_time_market_data_pi.Base.Int64.{two64}
use real_time_market_data_pi.Tick.{Tick}
use real_time_market_data_pi.Normalize.{Sequencer, SeqKey, key_of, last_seq, assign}

last_seq-insert :
    (k j : SeqKey) (n : ℕ) (s : Sequencer)
    → last_seq j (insert k n s) ≡ (if same k j then n else last_seq j s)
unfolding last_seq
last_seq-insert k j n s =
    ap (λ o. elim o [ none ↦ 0 | some m ↦ m ]) (lookup-insert k j n s)
    ∙ (elim (Bool-cases (same k j)) [ inl e ↦ rw e | inr e ↦ rw e ])

-- The sequence numbers of one key, in order.
pub seqs_of : SeqKey → List Tick → List ℕ
seqs_of k [] = []
seqs_of k (t ∷ ts) = if same (key_of t) k then t.seq ∷ seqs_of k ts else seqs_of k ts

-- n + 1, n + 2, … as many as there are ticks of the key.
pub counted_from : ℕ → SeqKey → List Tick → List ℕ
counted_from n k [] = []
counted_from n k (t ∷ ts) =
    if same (key_of t) k then (n + 1) ∷ counted_from (n + 1) k ts else counted_from n k ts

-- The ticks of a key get the numbers that follow the key's last one, without a gap, whatever ticks
-- of other keys stand between them, as long as the numbers stay below 2^64.
pub assign_consecutive :
    (k : SeqKey) (ts : List Tick) (s : Sequencer)
    → last_seq k s + length ts < two64
    → seqs_of k (assign ts s).0 ≡ counted_from (last_seq k s) k ts
unfolding assign seqs_of counted_from
assign_consecutive k [] s h = refl
assign_consecutive k (t ∷ ts) s h =
    let n = (last_seq (key_of t) s + 1) % two64 in
    let s' = insert (key_of t) n s in
    let step = last_seq-insert (key_of t) k n s in
    elim (Bool-cases (same (key_of t) k)) [
      | inl e ↦
          let q = ap (λ j. last_seq j s) ((pair_beq_iff (key_of t) k).0 e) in
          let small : n ≡ last_seq k s + 1 = omega (arith, q) in
          let now : last_seq k s' ≡ last_seq k s + 1 = step ∙ (rw e small) in
          let rest = assign_consecutive k ts s' (omega (arith, now)) in
          rw e (ap₂ (λ a l. a ∷ l) small (rest ∙ ap (λ m. counted_from m k ts) now))
      | inr e ↦
          let now : last_seq k s' ≡ last_seq k s = step ∙ (rw e refl) in
          let rest = assign_consecutive k ts s' (omega (arith, now)) in
          rw e (rest ∙ ap (λ m. counted_from m k ts) now)
    ]
