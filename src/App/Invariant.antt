-- ===== src/App/Invariant.antt =====
-- What stays true of the application under every key, whatever the server answers.
use sshnack.Base.{
  ◌≡◌, ◌≤◌, refl, not, if◌then◌else◌, ◌-◌, Bool, true, false, [], ◌∷◌, ◌++◌, arith, length,
  length-take, length-append, take, drop,
}
use sshnack.Base.Text.{Text, codes}
use sshnack.App.{
  Status, Product, api_ok, api_err_network, api_err_http, api_err_parse, InputMode, mode_browse,
  mode_prompt, PromptAction, prompt_none, Key, App, say, List, ℤ,
}
use sshnack.App.Cursor.Laws.{Placed}
use sshnack.App.Keys.{
  fed, feed_konami, set_status, set_stock, set_balance, open_prompt, opened, no_slot, konami_seq,
  keys_eq, close_prompt,
}

-- A prompt is open just when something is pending.
abbrev pub Prompted : InputMode → PromptAction → Type 0
Prompted mode_browse prompt_none = Unit
Prompted mode_browse _ = ⊥
Prompted mode_prompt prompt_none = ⊥
Prompted mode_prompt _ = Unit

-- The cursor stands on a product, or at 0 where there are none; the texts fit their buffers of 16, 48
-- and 128 bytes with a NUL, and the keys theirs of ten; a prompt is open just when it has an action.
pub record IsOk (a : App) : Type 0 where
  pub placed : Placed a.selected (length a.products)
  pub buf : length a.prompt_buf ≤ 15
  pub label : length a.prompt_label ≤ 47
  pub text : length a.message ≤ 127
  pub keys : length a.konami ≤ 10
  pub prompt : Prompted a.mode a.pending

said : (s : Text) → length (take 127 s) ≤ 127
said s = omega (arith, length-take 127 s)

pub say-IsOk : (s : Text) (a : App) → IsOk a → IsOk (say s a)
say-IsOk s a h = record {
  placed = h.placed;
  buf = h.buf;
  label = h.label;
  text = said s;
  keys = h.keys;
  prompt = h.prompt;
}

length-drop_one : (ks : List Key) → length (drop 1 ks) ≡ length ks - 1
length-drop_one [] = refl
length-drop_one (k ∷ ks) = omega arith

fed_lem : (ks : List Key) (k : Key) → length ks ≤ 10 → length (fed ks k) ≤ 10
fed_lem ks k h =
    ground
      (arith, length-append ks (k ∷ []), length-append (drop 1 ks) (k ∷ []), length-drop_one ks)

pub if-IsOk : (b : Bool) (a c : App) → IsOk a → IsOk c → IsOk (if b then a else c)
if-IsOk true a c h k = h
if-IsOk false a c h k = k

pub feed_konami-IsOk : (k : Key) (a : App) → IsOk a → IsOk (feed_konami k a)
unfolding feed_konami
feed_konami-IsOk k a h =
    let toggled : App = record a { admin = not a.admin; konami = [] } in
    if-IsOk (keys_eq (fed a.konami k) konami_seq)
      (say (if not a.admin then codes "ADMIN unlocked" else codes "ADMIN locked") toggled)
      (record a { konami = fed a.konami k })
      (say-IsOk (if not a.admin then codes "ADMIN unlocked" else codes "ADMIN locked") toggled
        (record {
          placed = h.placed;
          buf = h.buf;
          label = h.label;
          text = h.text;
          keys = omega arith;
          prompt = h.prompt;
        }))
      (record {
        placed = h.placed;
        buf = h.buf;
        label = h.label;
        text = h.text;
        keys = fed_lem a.konami k h.keys;
        prompt = h.prompt;
      })

set_status-IsOk : (st : Status) (s : Text) (a : App) → IsOk a → IsOk (set_status st s a)
unfolding set_status
set_status-IsOk api_ok s a h = h
set_status-IsOk api_err_network s a h =
    say-IsOk (codes "Cannot reach server") (record a { server_down = true })
      (record {
        placed = h.placed;
        buf = h.buf;
        label = h.label;
        text = h.text;
        keys = h.keys;
        prompt = h.prompt;
      })
set_status-IsOk api_err_http s a h = say-IsOk (s ++ codes ": server rejected request") a h
set_status-IsOk api_err_parse s a h = say-IsOk (s ++ codes ": unexpected server response") a h

pub set_stock-IsOk : (st : Status) (ps : List Product) (a : App) → IsOk a → IsOk (set_stock st ps a)
unfolding set_stock
set_stock-IsOk api_ok ps a h = record {
  placed = ground (arith, h.placed);
  buf = h.buf;
  label = h.label;
  text = h.text;
  keys = h.keys;
  prompt = h.prompt;
}
set_stock-IsOk api_err_network ps a h = set_status-IsOk api_err_network (codes "stock") a h
set_stock-IsOk api_err_http ps a h = set_status-IsOk api_err_http (codes "stock") a h
set_stock-IsOk api_err_parse ps a h = set_status-IsOk api_err_parse (codes "stock") a h

pub set_balance-IsOk : (st : Status) (bal : ℤ) (a : App) → IsOk a → IsOk (set_balance st bal a)
unfolding set_balance
set_balance-IsOk api_ok bal a h = record {
  placed = h.placed;
  buf = h.buf;
  label = h.label;
  text = h.text;
  keys = h.keys;
  prompt = h.prompt;
}
set_balance-IsOk api_err_network bal a h = set_status-IsOk api_err_network (codes "balance") a h
set_balance-IsOk api_err_http bal a h = set_status-IsOk api_err_http (codes "balance") a h
set_balance-IsOk api_err_parse bal a h = set_status-IsOk api_err_parse (codes "balance") a h

pub close_prompt-IsOk : (a : App) → IsOk a → IsOk (close_prompt a)
close_prompt-IsOk a h = record {
  placed = h.placed;
  buf = omega arith;
  label = h.label;
  text = h.text;
  keys = h.keys;
  prompt = tt;
}

opened-IsOk :
    (act : PromptAction) (s : Text) (a : App)
    → Prompted mode_prompt act
    → IsOk a
    → IsOk (opened act s a)
opened-IsOk act s a p h = record {
  placed = h.placed;
  buf = omega arith;
  label = omega (arith, length-take 47 s);
  text = h.text;
  keys = h.keys;
  prompt = p;
}

pub open_prompt-IsOk :
    (act : PromptAction) (s : Text) (a : App)
    → Prompted mode_prompt act
    → IsOk a
    → IsOk (open_prompt act s a)
unfolding open_prompt
open_prompt-IsOk act s a p h =
    if-IsOk (no_slot act a.products) (say (codes "No slot selected") a) (opened act s a)
      (say-IsOk (codes "No slot selected") a h) (opened-IsOk act s a p h)
