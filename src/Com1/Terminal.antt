-- ===== src/Com1/Terminal.antt =====
-- The terminal's settings, which the constructor of `COM1` changes and the destructor and a handler
-- of `atexit` put back.
use lvmm.Base.{
  ◌⊎◌, Bool-cases, inl, inr, ℕ, zero, suc, ◌+◌, ◌≡◌, refl, Bool, true, false, Option, none, some,
  bit_or, if◌then◌else◌, arith, List,
}

abbrev pub opost : ℕ
opost = 1

abbrev pub onlcr : ℕ
onlcr = 4

-- `termios`; `others` are the members that the source does not name.
pub record Termios : Type 0 where
  pub c_oflag : ℕ
  pub vmin : ℕ
  pub vtime : ℕ
  pub others : List ℕ

-- The settings of the terminal; `saved_termios`, where `termios_saved` is set; whether
-- `g_termios_to_restore` points to it; and how often the handler is registered.
pub record Terminal : Type 0 where
  pub settings : Termios
  pub saved : Option Termios
  pub to_restore : Bool
  pub handlers : ℕ

-- Whether the standard input is a terminal, and whether the calls succeed.
pub record TerminalCalls : Type 0 where
  pub isatty : Bool
  pub gets : Bool
  pub sets : Bool

-- `tcsetattr`, whose result is not looked at.
abbrev pub tcsetattr : TerminalCalls → Termios → Terminal → Terminal
tcsetattr calls v t = if calls.sets then record t { settings = v } else t

-- The settings that the constructor makes, over what `cfmakeraw` does.
unfoldable pub raw_of : (Termios → Termios) → Termios → Termios
raw_of cfmakeraw v =
    let raw = cfmakeraw v in
    record raw { c_oflag = bit_or raw.c_oflag (bit_or opost onlcr); vmin = 1; vtime = 0 }

unfoldable pub construct_com1 : (Termios → Termios) → TerminalCalls → Terminal → Terminal
unfolding raw_of
construct_com1 cfmakeraw calls t =
    if calls.isatty
    then (if calls.gets
        then tcsetattr calls (raw_of cfmakeraw t.settings)
            (record t { saved = some t.settings; to_restore = true; handlers = t.handlers + 1 })
        else t)
    else t

-- The destructor; its thread is not part of the terminal.
unfoldable pub destroy_com1 : TerminalCalls → Terminal → Terminal
destroy_com1 calls t = elim t.saved [ none ↦ t | some v ↦ tcsetattr calls v t ]

-- `restore_termios_atexit`; the object that the pointer leads to is never deleted.
unfoldable pub restore_termios_atexit : TerminalCalls → Terminal → Terminal
restore_termios_atexit calls t =
    if t.to_restore then (elim t.saved [ none ↦ t | some v ↦ tcsetattr calls v t ]) else t

-- The handlers that were registered, as `exit` runs them.
unfoldable pub run_atexit : TerminalCalls → ℕ → Terminal → Terminal
unfolding restore_termios_atexit
run_atexit calls zero t = t
run_atexit calls (suc n) t = run_atexit calls n (restore_termios_atexit calls t)

-- How the process ends: `main` returns, or an exception that nothing catches or a failed assertion
-- aborts it.
pub data End : Type 0 where
  by_return by_abort : End

abbrev pub leave : TerminalCalls → End → Terminal → Terminal
leave calls by_return t = run_atexit calls t.handlers t
leave calls by_abort t = t

-- Before the constructor.
abbrev pub untouched : Termios → Terminal
untouched v = record { settings = v; saved = none; to_restore = false; handlers = 0 }

tcsetattr-settings :
    (calls : TerminalCalls) (v : Termios) (t : Terminal)
    → calls.sets ≡ true
    → (tcsetattr calls v t).settings ≡ v
tcsetattr-settings calls v t h = rw h refl

module _ (cfmakeraw : Termios → Termios) (calls : TerminalCalls) (v : Termios) where
  abbrev raw_terminal : Terminal
  raw_terminal = record {
    settings = raw_of cfmakeraw v;
    saved = some v;
    to_restore = true;
    handlers = 1;
  }

  construct_com1-cases :
      calls.sets ≡ true
      → let t = construct_com1 cfmakeraw calls (untouched v) in
        (t ≡ untouched v) ⊎ (t ≡ raw_terminal)
  unfolding construct_com1
  construct_com1-cases h = elim (Bool-cases calls.isatty) [
    | inr a ↦ inl (rw (construct_com1, a) refl)
    | inl a ↦ elim (Bool-cases calls.gets) [
      | inr b ↦ inl (rw (construct_com1, a, b) refl)
      | inl b ↦ inr (rw (construct_com1, a, b, h) refl)
    ]
  ]

  restored :
      (t : Terminal)
      → calls.sets ≡ true
      → (t ≡ untouched v) ⊎ (t ≡ raw_terminal)
      → ((leave calls by_return t).settings ≡ v) × ((destroy_com1 calls t).settings ≡ v)
  unfolding run_atexit restore_termios_atexit destroy_com1
  restored t h (inl e) = rw e (refl, refl)
  restored t h (inr e) =
      rw e (tcsetattr-settings calls v raw_terminal h, tcsetattr-settings calls v raw_terminal h)

  -- Whether or not the standard input is a terminal and its settings can be read: when setting them
  -- succeeds, both the return of main and the destructor leave the terminal with the settings that
  -- it had before COM1 was made.
  pub leave-construct_com1 :
      calls.sets ≡ true
      → let t = construct_com1 cfmakeraw calls (untouched v) in
        ((leave calls by_return t).settings ≡ v) × ((destroy_com1 calls t).settings ≡ v)
  leave-construct_com1 h =
      restored (construct_com1 cfmakeraw calls (untouched v)) h (construct_com1-cases h)

  -- On a terminal whose calls succeed, the process that is aborted leaves the raw settings behind.
  pub leave-abort :
      calls.isatty ≡ true
      → calls.gets ≡ true
      → calls.sets ≡ true
      → (leave calls by_abort (construct_com1 cfmakeraw calls (untouched v))).settings
        ≡ raw_of cfmakeraw v
  unfolding construct_com1
  leave-abort a b c = ground (arith, a, b, c)
