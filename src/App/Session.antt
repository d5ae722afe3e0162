-- ===== src/App/Session.antt =====
-- `app_handle_key` keeps the invariant, and a session is any sequence of keys.
use sshnack.Base.{refl, none, some, Option, ◌==◌, ◌||◌, inr, false, [], ◌∷◌, arith, ℕ}
use sshnack.Base.Int.{negsuc, pos}
use sshnack.Base.Text.{codes}
use sshnack.App.{
  InputMode, mode_browse, mode_prompt, PromptAction, prompt_none, prompt_deposit, prompt_restock,
  prompt_price, Key, key_up, key_down, key_left, key_right, key_enter, key_backspace, char, Product,
  App, Api, selected_product, List,
}
use sshnack.App.Cursor.Laws.{left_of-Placed, right_of-Placed, vertical_of-Placed}
use sshnack.App.Keys.{cleared, feed_konami, close_prompt, app_refresh, app_init}
use sshnack.App.Handle.{
  press, confirm_pending, confirm_prompt, offline_key, prompt_key, browse_char, browse_key,
  online_key, app_handle_key, confirm_deposit, confirm_restock, confirm_price,
}
use sshnack.App.Invariant.{
  feed_konami-IsOk, open_prompt-IsOk, IsOk, say-IsOk, if-IsOk, close_prompt-IsOk,
}
use sshnack.App.Steps.{
  admin-IsOk, erase-IsOk, typed-IsOk, moved-IsOk, locked-IsOk, cancelled-IsOk, if-AllOk,
  app_refresh-IsOk, do_buy-IsOk, do_cashout-IsOk, confirm_deposit-IsOk, confirm_restock-IsOk,
  confirm_price-IsOk, AllOk,
}

module _ (api : Api) where
  confirm_pending-IsOk : (a : App) (w : api.World) → IsOk a → AllOk api (confirm_pending api a w)
  confirm_pending-IsOk a w h = pending-AllOk a.pending (selected_product a)
    where
      pending-AllOk :
          (act : PromptAction) (o : Option Product)
          → AllOk api (elim act [
            | prompt_none ↦ (a, w)
            | prompt_deposit ↦ confirm_deposit api a w
            | prompt_restock ↦ elim o [ none ↦ (a, w) | some p ↦ confirm_restock api p a w ]
            | prompt_price ↦ elim o [ none ↦ (a, w) | some p ↦ confirm_price api p a w ]
          ])
      pending-AllOk prompt_none o = h
      pending-AllOk prompt_deposit o = confirm_deposit-IsOk api a w h
      pending-AllOk prompt_restock none = h
      pending-AllOk prompt_restock (some p) = confirm_restock-IsOk api p a w h
      pending-AllOk prompt_price none = h
      pending-AllOk prompt_price (some p) = confirm_price-IsOk api p a w h

  confirm_prompt-IsOk : (a : App) (w : api.World) → IsOk a → AllOk api (confirm_prompt api a w)
  unfolding confirm_prompt
  confirm_prompt-IsOk a w h =
      let out = confirm_pending api a w in
      let closed = close_prompt-IsOk out.0 (confirm_pending-IsOk a w h) in
      if-AllOk api out.0.server_down _ _ closed
        (app_refresh-IsOk api (close_prompt out.0) out.1 closed)

  offline_key-IsOk :
      (k : Key) (a : App) (w : api.World) → IsOk a → AllOk api (offline_key api k a w)
  offline_key-IsOk (char c) a w h =
      if-AllOk api (c == b'r' || c == b'R') _ _ (app_refresh-IsOk api a w h)
        (if-IsOk (c == b'q' || c == b'Q') _ a (admin-IsOk a.admin false a h) h)
  offline_key-IsOk key_up a w h = h
  offline_key-IsOk key_down a w h = h
  offline_key-IsOk key_left a w h = h
  offline_key-IsOk key_right a w h = h
  offline_key-IsOk key_enter a w h = h
  offline_key-IsOk key_backspace a w h = h

  prompt_key-IsOk : (k : Key) (a : App) (w : api.World) → IsOk a → AllOk api (prompt_key api k a w)
  prompt_key-IsOk key_enter a w h = confirm_prompt-IsOk a w h
  prompt_key-IsOk key_backspace a w h = erase-IsOk a h
  prompt_key-IsOk (char c) a w h = if-AllOk api (c == 27) _ _ (cancelled-IsOk a h) (
      if-AllOk api (c == 10 || c == 13) _ _ (confirm_prompt-IsOk a w h)
        (if-IsOk (c == 127 || c == 8) _ _ (erase-IsOk a h) (typed-IsOk c a h)))
  prompt_key-IsOk key_up a w h = h
  prompt_key-IsOk key_down a w h = h
  prompt_key-IsOk key_left a w h = h
  prompt_key-IsOk key_right a w h = h

  browse_char-IsOk : (c : ℕ) (a : App) (w : api.World) → IsOk a → AllOk api (browse_char api c a w)
  browse_char-IsOk c a w h =
      if-AllOk api (c == 10 || c == 13 || c == 32) _ _ (do_buy-IsOk api a w h) (
        if-AllOk api (c == b'd') _ _
          (open_prompt-IsOk prompt_deposit (codes "Deposit amount (zl):") a tt h)
          (if-AllOk api (c == b'c') _ _ (do_cashout-IsOk api a w h) (
            if-AllOk api (c == b'r') _ _
              (say-IsOk (codes "Refreshed") (app_refresh api a w).0 (app_refresh-IsOk api a w h))
              (if-AllOk api (c == b'q') _ _ (admin-IsOk a.admin false a h) (
                if-AllOk api (c == b's') _ _
                  (if-IsOk a.admin _ a
                    (open_prompt-IsOk prompt_restock (codes "Restock qty:") a tt h) h)
                  (if-AllOk api (c == b'p') _ _
                    (if-IsOk a.admin _ a
                      (open_prompt-IsOk prompt_price (codes "New price (zl):") a tt h) h)
                    (if-IsOk (c == 27) _ a (locked-IsOk a h) h)))))))

  browse_key-IsOk : (k : Key) (a : App) (w : api.World) → IsOk a → AllOk api (browse_key api k a w)
  browse_key-IsOk key_left a w h = moved-IsOk _ a (left_of-Placed _ _ h.placed) h
  browse_key-IsOk key_right a w h = moved-IsOk _ a (right_of-Placed _ _ h.placed) h
  browse_key-IsOk key_up a w h =
      moved-IsOk _ a (vertical_of-Placed (negsuc 0) a.products a.selected h.placed) h
  browse_key-IsOk key_down a w h =
      moved-IsOk _ a (vertical_of-Placed (pos 1) a.products a.selected h.placed) h
  browse_key-IsOk key_enter a w h = do_buy-IsOk api a w h
  browse_key-IsOk key_backspace a w h = h
  browse_key-IsOk (char c) a w h = browse_char-IsOk c a w h

  online_key-IsOk :
      (m : InputMode) (k : Key) (a : App) (w : api.World)
      → IsOk a
      → AllOk api (online_key api m k a w)
  online_key-IsOk mode_prompt k a w h = prompt_key-IsOk k a w h
  online_key-IsOk mode_browse k a w h = browse_key-IsOk k a w h

  pub app_handle_key-IsOk :
      (key : Key) (a : App) (w : api.World) → IsOk a → IsOk (app_handle_key api key a w).0
  unfolding app_handle_key
  app_handle_key-IsOk key a w h =
      let fed = feed_konami-IsOk key a h in
      if-AllOk api (feed_konami key a).server_down _ _ (offline_key-IsOk key _ w fed)
        (online_key-IsOk (feed_konami key a).mode key _ w fed)

  pub app_init-IsOk : (w : api.World) → AllOk api (app_init api w)
  unfolding app_init
  app_init-IsOk w =
      let h = app_refresh-IsOk api cleared w (record {
        placed = inr refl;
        buf = omega arith;
        label = omega arith;
        text = omega arith;
        keys = omega arith;
        prompt = tt;
      }) in
      record {
        placed = h.placed;
        buf = h.buf;
        label = h.label;
        text = omega arith;
        keys = h.keys;
        prompt = h.prompt;
      }

  press-AllOk :
      (keys : List Key) (out : App × api.World) → AllOk api out → AllOk api (press api keys out)
  unfolding press
  press-AllOk [] out h = h
  press-AllOk (key ∷ keys) (a, w) h = press-AllOk keys _ (app_handle_key-IsOk key a w h)

  -- After `app_init` and any sequence of keys, whatever the server answers: the cursor stands on a
  -- product, or at 0 where there are none; the typed text, the label, the message and the keys that
  -- are remembered fit their buffers; and a prompt is open just when an action is pending.
  pub press-IsOk : (keys : List Key) (w : api.World) → IsOk (press api keys (app_init api w)).0
  press-IsOk keys w = press-AllOk keys (app_init api w) (app_init-IsOk w)
