-- ===== src/Examples/Readings.antt =====
-- The readings of the collector, and the receive loop against a peer that answers in two chunks.
use ai_m_os.Common.{pos, ◌-ℤ◌, ◌≡◌, refl, List, [], ◌∷◌, ◌++◌, Text, codes, ok, arith, Result}
use ai_m_os.Client.{Sockets, recv_all}
use ai_m_os.Client.Receive.{Delivers, concat, recv_all-concat}
use ai_m_os.Metrics.{Sample, usage}
use ai_m_os.Metrics.Bounds.{IsPercent, usage-IsPercent}
use ai_m_os.Examples.Fixed.{fixed, fixed-IsRounding}

usage-IsPercent_example : IsPercent fixed (usage fixed (pos 1000, pos 800) (pos 1400, pos 900))
unfolding ◌-ℤ◌
usage-IsPercent_example =
    usage-IsPercent fixed fixed-IsRounding (pos 1000, pos 800) (pos 1400, pos 900) (omega arith)
      (omega arith)

abbrev before : List Sample
before = (pos 10, pos 5) ∷ (pos 10, pos 5) ∷ []

abbrev after : List Sample
after = (pos 20, pos 6) ∷ (pos 20, pos 6) ∷ (pos 1, pos 1) ∷ []

abbrev next_chunk : List Text → Result Text × List Text
next_chunk [] = (ok [], [])
next_chunk (c ∷ cs) = (ok c, cs)

abbrev line : Sockets (List Text)
line = record {
  Sock = Unit;
  open_socket = λ w. (ok tt, w);
  set_timeout = λ s seconds w. (ok tt, w);
  connect = λ s path w. (ok tt, w);
  send_all = λ s t w. (ok tt, w);
  recv = λ s. next_chunk;
  close = λ s w. (ok tt, w);
}

abbrev chunks : List Text
chunks = codes "{\"ifaces\":" ∷ codes "{}}" ∷ []

chunks-Delivers : Delivers line tt chunks chunks []
chunks-Delivers = ((λ e. cc), (codes "{}}" ∷ [], refl, ((λ e. cc), ([], refl, refl))))

recv_all-concat_example : recv_all line 3 tt [] chunks ≡ (ok ([] ++ concat chunks), [])
recv_all-concat_example =
    recv_all-concat line tt 3 chunks [] chunks [] (omega arith) chunks-Delivers
