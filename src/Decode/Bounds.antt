-- ===== src/Decode/Bounds.antt =====
-- How much the decoders write.
use Prim.Native.Nat.{bit_or}
use mdsort.Base.{
  ℕ, zero, suc, ◌+◌, ◌-◌, ◌*◌, ◌/◌, ◌≤◌, ◌<◌, some, [], ◌∷◌, ◌≡◌, refl, arith, Bytes, length,
  length-append, is_space, skip_while, Option-cases, inl, inr,
}
use mdsort.Decode.{
  B64, b64_carry, b64_step, Stop, at_end, at_pad, b64_index, b64_loop, b64_trailer, b64_second_pad,
  b64_finish, b64_start, b64_pton,
}

-- Three bytes for four characters: what the state has taken and not yet written, in quarters of
-- three bytes.
abbrev owed : ℕ → ℕ
owed zero = 0
owed (suc k) = 3 - k

abbrev Account : ℕ → B64 → Type 0
Account read b = (b.state < 4) × (4 * length b.out + owed b.state ≡ 3 * read)

b64_step-Account :
    (n : ℕ) (b b' : B64) (v read : ℕ)
    → Account read b
    → b64_step n b v ≡ some b'
    → Account (suc read) b'
unfolding b64_step b64_carry
b64_step-Account n b b' v read h e = ground (
  arith,
  length-append b.out (bit_or b.partial (v / 16) ∷ []),
  length-append b.out (bit_or b.partial (v / 4) ∷ []),
  length-append b.out (bit_or b.partial v ∷ []),
)

abbrev stop_state : Stop → B64
stop_state (at_end b) = b
stop_state (at_pad b s) = b

-- What the loop promises of the bytes written when it stops.
abbrev Written : ℕ → Stop → Type 0
Written read stop =
    ((stop_state stop).state < 4)
    × (4 * length (stop_state stop).out + owed (stop_state stop).state ≤ 3 * read)

b64_loop-Written :
    (n : ℕ) (b : B64) (s : Bytes) (read : ℕ) (stop : Stop)
    → Account read b
    → b64_loop n b s ≡ some stop
    → Written (read + length s) stop
unfolding b64_loop is_space
b64_loop-Written n b [] read stop h e = ground (arith, e)
b64_loop-Written n b (c ∷ s) read stop h e =
    let skip = b64_loop-Written n b s read stop h in
    elim (Option-cases (b64_index c)) [
      | inl i ↦ ground (arith, skip)
      | inr i ↦ elim (Option-cases (b64_step n b i.0)) [
        | inl j ↦ ground (arith, skip)
        | inr j ↦
            let next =
              b64_loop-Written n j.0 s (suc read) stop (b64_step-Account n b j.0 i.0 read h j.1) in
            ground (arith, skip, next)
      ]
    ]

b64_trailer-out : (n : ℕ) (b : B64) (s out : Bytes) → b64_trailer n b s ≡ some out → out ≡ b.out
unfolding b64_trailer
b64_trailer-out n b s out e = go (skip_while is_space s) refl
  where
    go : (r : Bytes) → skip_while is_space s ≡ r → out ≡ b.out
    go [] q = ground (arith, q, e)
    go (c ∷ r) q = ground (arith, q, e)

b64_finish-out :
    (n : ℕ) (stop : Stop) (out : Bytes) → b64_finish n stop ≡ some out → out ≡ (stop_state stop).out
unfolding b64_finish b64_second_pad
b64_finish-out n (at_end b) out e = ground arith
b64_finish-out n (at_pad b s) out e = go (skip_while is_space s) refl
  where
    go : (r : Bytes) → skip_while is_space s ≡ r → out ≡ b.out
    go [] q = ground (arith, q, b64_trailer-out n b s out)
    go (c ∷ r) q = ground (arith, q, b64_trailer-out n b s out, b64_trailer-out n b r out)

-- What `b64_pton` returns is at most three quarters of its input, so `base64_decode`, which allocates
-- one byte more than the input has, writes its final NUL inside the buffer.
pub length-b64_pton :
    (src out : Bytes) (targsize : ℕ)
    → b64_pton src targsize ≡ some out
    → (4 * length out ≤ 3 * length src) × (length out < length src + 1)
unfolding b64_pton
length-b64_pton src out n e = elim (Option-cases (b64_loop n b64_start src)) [
  | inl q ↦ ground arith
  | inr q ↦
      let written = b64_loop-Written n b64_start src 0 q.0 (omega arith, omega arith) q.1 in
      let same = b64_finish-out n q.0 out in ground (arith, written, same, q.1)
]
