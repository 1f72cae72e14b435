-- ===== src/TextManager.antt =====
-- text_manager: a two-panel file manager on ncurses. Navigate is its key loop, Files the listing of a
-- directory, Copy the copying of a file and the dialogue of ui.c, Progress the threads of a copy,
-- Status the line they draw, Dialogue and Redraw what ui.c draws, and Start is main.c.
pub mod Files
pub mod Navigate
pub mod Copy
pub mod Redraw
pub mod Dialogue
pub mod Start
pub mod Progress
pub mod Status
