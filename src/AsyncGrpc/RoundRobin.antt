-- ===== src/AsyncGrpc/RoundRobin.antt =====
-- Round robin: `ChannelProvider` of async_grpc/async_grpc/client.hpp and client.cpp, and the choice of
-- an executor in `Server` of server.hpp and server.cpp. The counters are `std::atomic<size_t>`, so
-- that concurrent selections are one after the other, and they wrap at 2^64.
pub mod Fairness
use async_sandbox.Prelude.{ℕ, zero, suc, ◌+◌, ◌%◌, ◌^◌, Option, List, [], ◌∷◌, length, get_elem?}

abbrev pub size_t_mod : ℕ
size_t_mod = 2 ^ 64

pub record ChannelProvider (C : Type 0) : Type 0 where
  pub channels : List C
  pub next_channel : ℕ

pub record Executors (E : Type 0) : Type 0 where
  pub executors : List E
  pub next_executor : ℕ

module _ {C : Type 0} where
  -- `++m_nextChannel % m_channels.size()`
  unfoldable pub channel_index : ChannelProvider C → ℕ
  channel_index p = (p.next_channel + 1) % size_t_mod % length p.channels

  -- `none` is an access out of bounds, without channels
  unfoldable pub select_next_channel : ChannelProvider C → Option C × ChannelProvider C
  unfolding channel_index
  select_next_channel p = (
    get_elem? p.channels (channel_index p),
    record p { next_channel = (p.next_channel + 1) % size_t_mod },
  )

  -- `m_nextExecutor++ % m_executors.size()`
  unfoldable pub executor_index : Executors C → ℕ
  executor_index p = p.next_executor % length p.executors

  unfoldable pub select_next_executor : Executors C → Option C × Executors C
  unfolding executor_index
  select_next_executor p = (
    get_elem? p.executors (executor_index p),
    record p { next_executor = (p.next_executor + 1) % size_t_mod },
  )

  -- After so many selections.
  unfoldable pub channels_after : ℕ → ChannelProvider C → ChannelProvider C
  unfolding select_next_channel
  channels_after zero p = p
  channels_after (suc n) p = channels_after n (select_next_channel p).1

  unfoldable pub executors_after : ℕ → Executors C → Executors C
  unfolding select_next_executor
  executors_after zero p = p
  executors_after (suc n) p = executors_after n (select_next_executor p).1
