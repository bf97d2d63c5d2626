-- ===== src/Ring/Window.antt =====
-- A stretch of the ring as one or two stretches of the buffer.
use chan_svistok.Base.{
  ℕ, ◌+◌, ◌-◌, ◌≤◌, ◌<◌, ◌≡◌, ap, ap₂, ◌∙◌, List, [], ◌++◌, ◌==◌, if◌then◌else◌, tabulate,
  tabulate_ext, tabulate_length, tabulate-append, arith,
}
use chan_svistok.Memory.{Bytes}
use chan_svistok.Ring.{RingBuffer, IoVecs, wrap, window, contents}

-- The `n` bytes of the buffer from `base` on.
abbrev pub slice : Bytes → ℕ → ℕ → List ℕ
slice buffer base n = tabulate n (λ k. buffer (base + k))

-- What a reader of the first `count` vectors sees.
abbrev pub iov_bytes : Bytes → ℕ × IoVecs → List ℕ
iov_bytes buffer (count, iov) =
    if count == 0
    then []
    else (if count == 1
        then slice buffer iov.base0 iov.len0
        else slice buffer iov.base0 iov.len0 ++ slice buffer iov.base1 iov.len1)

-- The vectors lie inside a buffer of `size` bytes.
abbrev pub InBounds : ℕ → ℕ × IoVecs → Type 0
InBounds size (count, iov) =
    (0 < count → iov.base0 + iov.len0 ≤ size) × (1 < count → iov.base1 + iov.len1 ≤ size)

module _ (buffer : Bytes) (size start n : ℕ) where
  pub window_plain : start + n ≤ size → window buffer size start n ≡ slice buffer start n
  unfolding wrap
  window_plain h =
      tabulate_ext n (λ k. buffer (wrap size (start + k))) (λ k. buffer (start + k))
        (λ k l. ap buffer (ground arith))

  pub window_wrapped :
      start ≤ size
      → n ≤ size
      → size < start + n
      → window buffer size start n
        ≡ slice buffer start (size - start) ++ slice buffer 0 (n - (size - start))
  unfolding wrap
  window_wrapped s l h =
      tabulate_length n ((size - start) + (n - (size - start))) at (omega arith)
      ∙ tabulate-append (size - start) (n - (size - start)) at
      ∙ ap₂ ◌++◌
          (tabulate_ext (size - start) at (λ k. buffer (start + k))
            (λ k b. ap buffer (ground arith)))
          (tabulate_ext (n - (size - start)) (λ k. at ((size - start) + k)) (λ k. buffer (0 + k))
            (λ k b. ap buffer (ground arith)))
    where
      at : ℕ → ℕ
      at k = buffer (wrap size (start + k))

-- The contents, from the number of bytes held and the byte at each place.
pub contents_of :
    (rb : RingBuffer) (n : ℕ) (f : ℕ → ℕ)
    → rb.used ≡ n
    → ((k : ℕ) → k < n → rb.buffer (wrap rb.size (rb.read + k)) ≡ f k)
    → contents rb ≡ tabulate n f
contents_of rb n f h at =
    tabulate_length rb.used n (λ k. rb.buffer (wrap rb.size (rb.read + k))) h
    ∙ tabulate_ext n (λ k. rb.buffer (wrap rb.size (rb.read + k))) f at

-- The contents of a ring to which `n` bytes have been added behind those of `rb`.
pub contents_append :
    (rb rb' : RingBuffer) (n : ℕ) (g : ℕ → ℕ)
    → rb'.used ≡ rb.used + n
    → ((k : ℕ)
        → k < rb.used
        → rb'.buffer (wrap rb'.size (rb'.read + k)) ≡ rb.buffer (wrap rb.size (rb.read + k)))
    → ((k : ℕ) → k < n → rb'.buffer (wrap rb'.size (rb'.read + (rb.used + k))) ≡ g k)
    → contents rb' ≡ contents rb ++ tabulate n g
contents_append rb rb' n g h old new =
    tabulate_length rb'.used (rb.used + n) at h
    ∙ tabulate-append rb.used n at
    ∙ ap₂ ◌++◌ (tabulate_ext rb.used at (λ k. rb.buffer (wrap rb.size (rb.read + k))) old)
        (tabulate_ext n (λ k. at (rb.used + k)) g new)
  where
    at : ℕ → ℕ
    at k = rb'.buffer (wrap rb'.size (rb'.read + k))
