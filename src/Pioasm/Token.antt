-- ===== src/Pioasm/Token.antt =====
-- The kinds of tokens of the PIO assembler: rp2/pioasm/pioasm_internal.h, with the tables of keywords and
-- directives of rp2/pioasm/pioasm_lexer.c.
use morelibc.Base.{ℕ, Bool, List, [], ◌∷◌, ◌==◌, text}

-- `pioasm_token_type_t`
pub data Token : Type 0 where
  tok_eof tok_newline tok_id tok_int tok_float tok_comma tok_colon tok_lparen tok_rparen : Token
  tok_lbracket tok_rbracket tok_plus tok_minus tok_multiply tok_divide tok_or tok_and tok_xor :
      Token
  tok_shl tok_shr tok_not tok_reverse tok_post_dec tok_not_equal tok_assign tok_lessthan : Token
  tok_jmp tok_wait tok_in tok_out tok_push tok_pull tok_mov tok_irq tok_set tok_nop tok_program :
      Token
  tok_wrap_target tok_wrap tok_define tok_side_set tok_word tok_origin tok_pio_version : Token
  tok_clock_div tok_fifo tok_mov_status tok_dot_set tok_dot_out tok_dot_in tok_lang_opt tok_pin :
      Token
  tok_gpio tok_osre tok_jmppin tok_prev tok_next tok_pins tok_null tok_pindirs tok_block : Token
  tok_noblock tok_ifempty tok_iffull tok_nowait tok_clear tok_rel tok_x tok_y tok_exec tok_pc :
      Token
  tok_isr tok_osr tok_optional tok_side tok_status tok_public tok_rp2040 tok_rp2350 tok_rxfifo :
      Token
  tok_txfifo tok_txrx tok_tx tok_rx tok_txput tok_txget tok_putget tok_left tok_right tok_auto :
      Token
  tok_manual : Token

-- The value of the enumerator.
abbrev pub code : Token → ℕ
code tok_eof = 0
code tok_newline = 1
code tok_id = 2
code tok_int = 3
code tok_float = 4
code tok_comma = 5
code tok_colon = 6
code tok_lparen = 7
code tok_rparen = 8
code tok_lbracket = 9
code tok_rbracket = 10
code tok_plus = 11
code tok_minus = 12
code tok_multiply = 13
code tok_divide = 14
code tok_or = 15
code tok_and = 16
code tok_xor = 17
code tok_shl = 18
code tok_shr = 19
code tok_not = 20
code tok_reverse = 21
code tok_post_dec = 22
code tok_not_equal = 23
code tok_assign = 24
code tok_lessthan = 25
code tok_jmp = 26
code tok_wait = 27
code tok_in = 28
code tok_out = 29
code tok_push = 30
code tok_pull = 31
code tok_mov = 32
code tok_irq = 33
code tok_set = 34
code tok_nop = 35
code tok_program = 36
code tok_wrap_target = 37
code tok_wrap = 38
code tok_define = 39
code tok_side_set = 40
code tok_word = 41
code tok_origin = 42
code tok_pio_version = 43
code tok_clock_div = 44
code tok_fifo = 45
code tok_mov_status = 46
code tok_dot_set = 47
code tok_dot_out = 48
code tok_dot_in = 49
code tok_lang_opt = 50
code tok_pin = 51
code tok_gpio = 52
code tok_osre = 53
code tok_jmppin = 54
code tok_prev = 55
code tok_next = 56
code tok_pins = 57
code tok_null = 58
code tok_pindirs = 59
code tok_block = 60
code tok_noblock = 61
code tok_ifempty = 62
code tok_iffull = 63
code tok_nowait = 64
code tok_clear = 65
code tok_rel = 66
code tok_x = 67
code tok_y = 68
code tok_exec = 69
code tok_pc = 70
code tok_isr = 71
code tok_osr = 72
code tok_optional = 73
code tok_side = 74
code tok_status = 75
code tok_public = 76
code tok_rp2040 = 77
code tok_rp2350 = 78
code tok_rxfifo = 79
code tok_txfifo = 80
code tok_txrx = 81
code tok_tx = 82
code tok_rx = 83
code tok_txput = 84
code tok_txget = 85
code tok_putget = 86
code tok_left = 87
code tok_right = 88
code tok_auto = 89
code tok_manual = 90

abbrev pub is : Token → Token → Bool
is a b = code a == code b

-- An entry of `keywords` or `directives`.
pub record Entry : Type 0 where
  pub name : List ℕ
  pub token : Token

abbrev pub keywords : List Entry
keywords =
    record { name = text "auto"; token = tok_auto }
    ∷ record { name = text "block"; token = tok_block }
    ∷ record { name = text "clear"; token = tok_clear }
    ∷ record { name = text "exec"; token = tok_exec }
    ∷ record { name = text "gpio"; token = tok_gpio }
    ∷ record { name = text "ifempty"; token = tok_ifempty }
    ∷ record { name = text "iffull"; token = tok_iffull }
    ∷ record { name = text "in"; token = tok_in }
    ∷ record { name = text "irq"; token = tok_irq }
    ∷ record { name = text "isr"; token = tok_isr }
    ∷ record { name = text "jmp"; token = tok_jmp }
    ∷ record { name = text "jmppin"; token = tok_jmppin }
    ∷ record { name = text "left"; token = tok_left }
    ∷ record { name = text "manual"; token = tok_manual }
    ∷ record { name = text "mov"; token = tok_mov }
    ∷ record { name = text "next"; token = tok_next }
    ∷ record { name = text "noblock"; token = tok_noblock }
    ∷ record { name = text "nop"; token = tok_nop }
    ∷ record { name = text "nowait"; token = tok_nowait }
    ∷ record { name = text "null"; token = tok_null }
    ∷ record { name = text "one"; token = tok_int }
    ∷ record { name = text "opt"; token = tok_optional }
    ∷ record { name = text "optional"; token = tok_optional }
    ∷ record { name = text "osr"; token = tok_osr }
    ∷ record { name = text "osre"; token = tok_osre }
    ∷ record { name = text "out"; token = tok_out }
    ∷ record { name = text "pc"; token = tok_pc }
    ∷ record { name = text "pin"; token = tok_pin }
    ∷ record { name = text "pindirs"; token = tok_pindirs }
    ∷ record { name = text "pins"; token = tok_pins }
    ∷ record { name = text "prev"; token = tok_prev }
    ∷ record { name = text "public"; token = tok_public }
    ∷ record { name = text "pull"; token = tok_pull }
    ∷ record { name = text "push"; token = tok_push }
    ∷ record { name = text "putget"; token = tok_putget }
    ∷ record { name = text "rel"; token = tok_rel }
    ∷ record { name = text "right"; token = tok_right }
    ∷ record { name = text "rp2040"; token = tok_rp2040 }
    ∷ record { name = text "rp2350"; token = tok_rp2350 }
    ∷ record { name = text "rx"; token = tok_rx }
    ∷ record { name = text "rxfifo"; token = tok_rxfifo }
    ∷ record { name = text "set"; token = tok_set }
    ∷ record { name = text "side"; token = tok_side }
    ∷ record { name = text "side_set"; token = tok_side }
    ∷ record { name = text "sideset"; token = tok_side }
    ∷ record { name = text "status"; token = tok_status }
    ∷ record { name = text "tx"; token = tok_tx }
    ∷ record { name = text "txfifo"; token = tok_txfifo }
    ∷ record { name = text "txget"; token = tok_txget }
    ∷ record { name = text "txput"; token = tok_txput }
    ∷ record { name = text "txrx"; token = tok_txrx }
    ∷ record { name = text "wait"; token = tok_wait }
    ∷ record { name = text "x"; token = tok_x }
    ∷ record { name = text "y"; token = tok_y }
    ∷ record { name = text "zero"; token = tok_int }
    ∷ []

abbrev pub directives : List Entry
directives =
    record { name = text "clock_div"; token = tok_clock_div }
    ∷ record { name = text "define"; token = tok_define }
    ∷ record { name = text "fifo"; token = tok_fifo }
    ∷ record { name = text "in"; token = tok_dot_in }
    ∷ record { name = text "lang_opt"; token = tok_lang_opt }
    ∷ record { name = text "mov_status"; token = tok_mov_status }
    ∷ record { name = text "origin"; token = tok_origin }
    ∷ record { name = text "out"; token = tok_dot_out }
    ∷ record { name = text "pio_version"; token = tok_pio_version }
    ∷ record { name = text "program"; token = tok_program }
    ∷ record { name = text "set"; token = tok_dot_set }
    ∷ record { name = text "side_set"; token = tok_side_set }
    ∷ record { name = text "word"; token = tok_word }
    ∷ record { name = text "wrap"; token = tok_wrap }
    ∷ record { name = text "wrap_target"; token = tok_wrap_target }
    ∷ []
