-- ===== src/Policy/Image/Digest.antt =====
-- runtime_policy.py: the digest of a challenge image in production.
use mathlib.Core.List
use ctf_plugin_docker_per_te.Prelude.{
  ℕ, zero, suc, String, code, ◌≡◌, refl, sym, ap, ◌∙◌, inl, inr, Bool, true, false, ◌||◌, Option,
  List, [], ◌∷◌, length, All, any, arith,
}
use ctf_plugin_docker_per_te.Text.{any_char, is_space, is_space_code}
use ctf_plugin_docker_per_te.Regex.{chars, exactly, literals, codes}
use ctf_plugin_docker_per_te.Regex.Language.{Matches, seq-inv, chars-inv, empty-inv}
use ctf_plugin_docker_per_te.Regex.Search.{EndsWith}
use ctf_plugin_docker_per_te.Result.{ok}
use ctf_plugin_docker_per_te.Policy.Identity.{RuntimeIdentity}
use ctf_plugin_docker_per_te.Policy.Image.{is_hex, image_digest_pattern, validate_image_reference}
use ctf_plugin_docker_per_te.Policy.Image.Accepts.{validate_image_reference_iff}

-- A run of the pattern's characters, and the whole digest pattern.
exactly-inv :
    (n : ℕ) (p : ℕ → Bool) (w : List ℕ)
    → Matches (exactly n (chars p)) w
    → (length w ≡ n) × All (λ k. p k ≡ true) w
exactly-inv zero p w m = rw (empty-inv m) (refl, tt)
exactly-inv (suc n) p w m =
    let (u, v, first, rest, e) = seq-inv m in
    let (k, hit, one) = chars-inv first in
    let (count, hits) = exactly-inv n p v rest in
    let whole : w ≡ k ∷ v = e ∙ ap (λ l. List.◌++◌ l v) one in rw whole (ap suc count, (hit, hits))

literals-inv : (ns w : List ℕ) → Matches (literals ns) w → w ≡ ns
literals-inv [] w m = empty-inv m
literals-inv (n ∷ ns) w m =
    let (u, v, first, rest, e) = seq-inv m in
    let (k, hit, one) = chars-inv first in
    let same : n ≡ k = ground arith in
    e
    ∙ ap (λ l. List.◌++◌ l v) one
    ∙ ap (λ j. j ∷ v) (sym same)
    ∙ ap (◌∷◌ n) (literals-inv ns v rest)

-- White space in a text is white space among its code points.
any_char-codes : (s : String) → any_char is_space s ≡ any is_space_code (codes s)
unfolding is_space
any_char-codes String.[] = refl
any_char-codes (String.◌∷◌ c s) = ap (λ b. is_space_code (code c) || b) (any_char-codes s)

any-append_last : (front : List ℕ) → any is_space_code (List.◌++◌ front (10 ∷ [])) ≡ true
any-append_last [] = refl
any-append_last (n ∷ front) = ground (arith, any-append_last front)

line_feed-lem :
    (s : String) (front u : List ℕ)
    → codes s ≡ List.◌++◌ front (List.◌++◌ u (10 ∷ []))
    → any_char is_space s ≡ true
line_feed-lem s front u e =
    any_char-codes s
    ∙ ap (any is_space_code) (e ∙ sym (List.append_assoc front u (10 ∷ [])))
    ∙ any-append_last (List.◌++◌ front u)

digest_word :
    (w : List ℕ)
    → Matches image_digest_pattern w
    → (hex : List ℕ) × (w ≡ List.◌++◌ (codes "@sha256:") hex)
      × (length hex ≡ 64)
      × All (λ n. is_hex n ≡ true) hex
digest_word w m =
    let (u, v, mark, digits, e) = seq-inv m in
    let (count, hits) = exactly-inv 64 is_hex v digits in
    (v, e ∙ ap (λ l. List.◌++◌ l v) (literals-inv (codes "@sha256:") u mark), count, hits)

-- A text without white space that ends with the pattern ends with a digest, not with a line feed.
HasDigest : String → Type 0
HasDigest value =
    (name : List ℕ) × (hex : List ℕ) × (codes value
      ≡ List.◌++◌ name (List.◌++◌ (codes "@sha256:") hex))
    × (length hex ≡ 64)
    × All (λ n. is_hex n ≡ true) hex

solid-HasDigest :
    (value : String)
    → any_char is_space value ≡ false
    → EndsWith image_digest_pattern (codes value)
    → HasDigest value
unfolding HasDigest
solid-HasDigest value solid (name, word, e, inl m) =
    let (hex, same, count, hits) = digest_word word m in
    (name, hex, e ∙ ap (List.◌++◌ name) same, count, hits)
solid-HasDigest value solid (name, word, e, inr m) =
    let (u, v, _, last, split) = seq-inv m in
    let (n, feed, one) = chars-inv last in
    let same : n ≡ 10 = ground arith in
    let end : v ≡ 10 ∷ [] = one ∙ ap (λ k. k ∷ []) same in
    let whole : codes value ≡ List.◌++◌ name (List.◌++◌ u (10 ∷ [])) =
      e ∙ ap (List.◌++◌ name) (split ∙ ap (List.◌++◌ u) end) in
    absurd (cc (line_feed-lem value name u whole, solid))

-- In production an accepted reference is some text, `@sha256:` and 64 hexadecimal digits.
pub production_image_has_digest :
    (image : Option String) (identity : RuntimeIdentity) (value : String)
    → identity.target_id ≡ "production"
    → validate_image_reference image identity ≡ ok value
    → (name : List ℕ) × (hex : List ℕ) × (codes value
        ≡ List.◌++◌ name (List.◌++◌ (codes "@sha256:") hex))
      × (length hex ≡ 64)
      × All (λ n. is_hex n ≡ true) hex
unfolding HasDigest
production_image_has_digest image identity value production h =
    let (_, i) = (validate_image_reference_iff image identity value).0 h in
    elim i.pinned [
      | inl other ↦ absurd (other production)
      | inr digest ↦ solid-HasDigest value i.solid digest
    ]
