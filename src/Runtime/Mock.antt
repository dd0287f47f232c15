-- ===== src/Runtime/Mock.antt =====
-- The mock runtimes of kitmux-linux/rust/model/src/runtime.rs. A probe shares its counters with the
-- runtime through an `Arc<Mutex<_>>`; the state of a runtime is what the probe would show.
use kitmux_linux.Base.{ℕ, ◌+◌, ◌%◌, ◌^◌, Bool, true, false}
use kitmux_linux.Runtime.{Runtimes}

pub record MockRuntimeSnapshot : Type 0 where
  pub pump_count : ℕ
  pub close_count : ℕ
  pub closed : Bool

-- `MockRuntimeSnapshot::default`
abbrev pub fresh : MockRuntimeSnapshot
fresh = record { pump_count = 0; close_count = 0; closed = false }

-- The counters are `u64`.
unfoldable pub pump : MockRuntimeSnapshot → MockRuntimeSnapshot
pump s = record s { pump_count = (s.pump_count + 1) % 2 ^ 64 }

unfoldable pub close : MockRuntimeSnapshot → MockRuntimeSnapshot
close s = record s { close_count = (s.close_count + 1) % 2 ^ 64; closed = true }

-- `impl TerminalRuntime for MockTerminalRuntime` and `impl BrowserRuntime for MockBrowserRuntime`
instance unfoldable pub mock_runtimes : Runtimes MockRuntimeSnapshot MockRuntimeSnapshot
unfolding pump close
mock_runtimes = record {
  pump = pump;
  close_terminal = close;
  terminal_closed = λ s. s.closed;
  close_browser = close;
  browser_closed = λ s. s.closed;
}
