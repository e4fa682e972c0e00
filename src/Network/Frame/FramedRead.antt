-- ===== src/Network/Frame/FramedRead.antt =====
-- elfo-network/src/frame/read.rs: the choice of a strategy, and the calls that go to it.
use elfo.Base.{ℕ, Run, done, ◌>>=◌}
use elfo.Base.Loop.{Outcome, returned, panicked, out_of_fuel}
use elfo.Network.Codec.{Libraries}
use elfo.Network.ReadBuffer.{extend_filled}
use elfo.Network.Frame.Lz4.{Lz4}
use elfo.Network.Frame.Read.{
  FramedReadStats, no_read_stats, Lz4FramedRead, NoneFramedRead, ReadResult, read_none, read_lz4,
}

pub data FramedRead : Type 0 where
  lz4 : Lz4FramedRead → FramedRead
  none : NoneFramedRead → FramedRead

-- The reader behind one of its strategies.
abbrev pub with_state {ℓ κ μ} :
    {S : Type ℓ} {T : Type κ} {A : Type μ} → (S → T) → Outcome S A → Outcome T A
with_state f (returned s a) = returned (f s) a
with_state f panicked = panicked
with_state f out_of_fuel = out_of_fuel

module _ (lib : Libraries) (block : Lz4) where
  unfoldable pub read : ℕ → FramedRead → Outcome FramedRead (ReadResult lib)
  read fuel (FramedRead.lz4 r) = with_state (λ s. FramedRead.lz4 s.0) (read_lz4 lib block fuel r)
  read fuel (FramedRead.none r) = with_state (λ s. FramedRead.none s) (read_none lib fuel r)

unfoldable pub mark_filled : FramedRead → ℕ → Run FramedRead
mark_filled (FramedRead.lz4 r) count = do
  b ← extend_filled r.compressed_buffer count
  done (FramedRead.lz4 (record r { compressed_buffer = b }))
mark_filled (FramedRead.none r) count = do
  b ← extend_filled r.buffer count
  done (FramedRead.none (record r { buffer = b }))

unfoldable pub take_stats : FramedRead → FramedRead × FramedReadStats
take_stats (FramedRead.lz4 r) = (FramedRead.lz4 (record r { stats = no_read_stats }), r.stats)
take_stats (FramedRead.none r) = (FramedRead.none (record r { stats = no_read_stats }), r.stats)
