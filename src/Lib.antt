-- ===== src/Lib.antt =====
-- The web server module of the device: the TFTP client that updates its firmware, the requests of
-- the web pages to the device's boards, the pages of the ports, of the boards and of the device
-- itself, and the upload of a file by the browser.
--
-- A page's handler calls the web_read_ or web_write_ functions, which exchange frames with the
-- boards over the link, one at a time under a mutex, and keep what they read in tables. The update
-- page starts the TFTP client, which downloads an image to the flash, verifies its head and
-- checksum and hands it to the boot loader.
--
-- Base holds what the parts share: tests and lists on native numbers, bytes in memory
-- (Base.Bytes), and the result of a call (Base.Outcome): it returns, makes an undefined access
-- (`fault`), or waits for ever (`blocked`). An Action is a call on a state.
--
-- Tftp is USER/module_webserver/tftp_client.c and tftp_client.h. Tftp.State has struct
-- tftp_control and the client's globals (Client), Tftp.Packet the packets that it sends,
-- Tftp.Image the storing of a block (tftp_handle_data), Tftp.Update the loop of
-- tftp_firmware_update in its parts and the turn of user_tftp_client_thread. What the server
-- sends is a list of waits, with the datagrams that come before OSSemSet and those that come
-- until the task runs again; after the list the server is silent, so the loop ends with the list.
-- Datagrams that arrive while the task handles another one are not modelled, and neither are
-- delays and printing, but for the text of an ERROR packet, whose end is searched in the frame
-- buffer. Tftp.Buffer is the bytes of that buffer and of the read request. The flash, pbuf_alloc,
-- udp_sendto and the layout of UpdateFilehead_S are not in this repository: they are the
-- parameters in Firmware. The head of the image fits a packet.
--
-- Comm is USER/module_webserver/webserver_control_comm.c and webserver_control_comm.h with the
-- frame headers. Comm.State has struct web_ctrl_comm, Comm.Require one exchange (ctrl_require and
-- ctrl_dyb_frame_capture), Comm.Read and Comm.Tables the web_read_ functions, and Comm.Write the
-- web_write_ functions. The link is a parameter: a function from all frames sent so far to the
-- frames that it delivers, before the semaphore is cleared and within the second of the wait. The
-- link layer's own encoding is not modelled. The values of hj_nm.h, which is not in this
-- repository, are the parameters in Codes. Comm.Responds says what a device is for these requests
-- by its answers; Comm.Rows, Comm.Reads and Comm.Page are the reasoning about the loops over the
-- boards, once for all tables, and OptTable, EthTable, E1Table and VersionTable apply it. The
-- loops run over the nine boards of MAX_BOARD_NO. Comm.Tidy is what holds of the state between two
-- requests; Comm.Keeps, Changes, Loops, OneBoard and Whole follow it through every request.
--
-- Ports is USER/module_webserver/webserver_opt.c, webserver_e1.c and webserver_eth.c as they are
-- compiled (code under #if 0 is left out), with mystrncmp of
-- webserver_build_form.c, FindCGIParameter of httpd_cgi.c, ntoalpha of httpd_ssi.c and the texts
-- of webserver_form_string.h (Ports.Text). A string is its list of bytes. No handler
-- tests the size of the buffer that its text goes to (max_tag_insert_len); it gets what the buffer
-- held before, since it may leave it so.
--
-- Boards is USER/module_webserver/webserver_boards_mng.c with the rows of webserver_build_form.c:
-- Boards.Table its columns and lines, Boards.Lines what a line shows, Boards.Shown the lines
-- against a device. version_ntoa is a parameter.
--
-- Admin is the pages that manage the device: Admin.Account is webserver_account.c and
-- webserver_login.c, Admin.Network webserver_net_config.c with ajax_get_fill of httpd_ssi.c,
-- Admin.Reboot webserver_reboot.c, where a reset clears the static flag, and Admin.Update the
-- form and the status of webserver_update.c with the turn of the client's task that the form
-- starts. The functions that store the account and convert or validate addresses are parameters;
-- the calls that put addresses into use are kept as a list.
--
-- Pages is the smaller pages: Pages.Filename the crop of the file name in
-- USER/module_webserver/webserver_update.c, and Pages.Remote the choice of the remote end in
-- webserver_cent_rmt.c and the panel in webserver_panel.c; Pages.Panel sets the panel against a
-- device.
--
-- Site is the tables of handlers in httpd_cgi.c (Site.Cgi) and httpd_ssi.c (Site.Ssi) over the
-- state of all pages (Site.State), with what the pages take from the rest of the firmware in the
-- record Outside. The search of the HTTP server for a handler by the name of a form or a tag is
-- taken to find the first one. Site.Reach is the sequences of forms, tags and turns of the
-- client's task from the state after start up; Site.CalmTags goes through the tags, and
-- Site.Shows and Site.Boards set them against a device. A tag without a handler gets the text of
-- get_tag_insert. The handlers share one task, so each ends before the next begins; the client's
-- task shares no state with the boards' pages, and its turn is one step. A device in the sense of
-- Comm.Responds gives the same answers whatever was sent before, so the theorems against a device
-- say nothing of one that a form has configured since.
--
-- Upload is USER/module_webserver/webserver_iap.c: Upload.State its static variables,
-- Upload.Parse its searches, Upload.Reply the sending of a page, and Upload.Recv the handler
-- webserver_iap_http_recv in its parts. A packet is the bytes that can be read from its payload
-- on; a read behind them is a fault, but for the searches: a comparison that would run past the
-- packet's end counts as a mismatch there. The pointer to the connection's state, which the
-- handler never sets, is a part of the state: it points to a state or to none. The files of
-- fsdata.c and what lwIP does at a call are parameters. IAP_HTTP_writedata, which no call
-- reaches, is left out; the bytes of the file are kept as they are handed to webserver_iap_debug
-- in its place.
--
-- Not modelled: the copy of the lwIP HTTP server (httpd.c, fs.c and their headers), the vendor's
-- TFTP server demonstration (tftpserver.c), the web assets, and code under #if 0.
pub mod Base
pub mod Tftp
pub mod Comm
pub mod Ports
pub mod Pages
pub mod Upload
pub mod Boards
pub mod Admin
pub mod Site
