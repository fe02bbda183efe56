-- ===== src/Util/Close.antt =====
-- util/close.rs: writers that are closed by a call, and the wrapper for those that need none.
use btdt.Io.{IoResult, ok}

pub record SelfClosing (T : Type 0) : Type 0 where
  pub inner : T

unfoldable pub close : {T : Type 0} → SelfClosing T → IoResult (Unit {0})
close w = ok tt
